-- ===== src/Cache/Users/Queue.antt =====
-- The eviction queue of the users: it lists exactly the cached ones, each once, and a user that
-- arrives over the capacity takes the place of the oldest.
use rocketsocket.Base.{
  length-append, ℕ, zero, suc, ◌-◌, ◌≤◌, String, ◌≡◌, refl, sym, ap, ◌∙◌, true, false, ◌&&◌, Option,
  none, some, List, [], ◌∷◌, ◌++◌, arith, if◌then◌else◌, ◌==◌, ℕ_eq, String_eq, elem-append,
  elem-retain, is_some, length, elem, Option_eq,
}
use rocketsocket.Cache.DashMap.{DashMap}
use rocketsocket.Cache.Users.Distinct.{
  IsDistinct, IsDistinct-append, others, IsDistinct-others, length-others,
}
use rocketsocket.Cache.Store.{remove_all}
use rocketsocket.Cache.Users.{pop_oldest}

module _ (D : DashMap) {V : Type 0} where
  -- The queue lists the users of the table, each once, and they are at most `capacity`.
  pub record IsQueued (capacity : ℕ) (users : D.Table V) (order : List String) : Type 0 where
    pub listed : (id : String) → elem order id ≡ is_some (D.get V users id)
    pub distinct : IsDistinct order
    pub counted : length order ≡ D.len V users
    pub bounded : D.len V users ≤ capacity

  pub new-IsQueued : (capacity : ℕ) → IsQueued capacity (D.new V) []
  unfolding elem
  new-IsQueued capacity = record {
    listed = λ id. rw D.get-new refl;
    distinct = tt;
    counted = sym (D.len-new V);
    bounded = omega (arith, D.len-new V);
  }

  -- A user that is removed leaves the queue too.
  pub remove-IsQueued :
      (capacity : ℕ) (users : D.Table V) (order : List String) (id : String) (v : V)
      → IsQueued capacity users order
      → D.get V users id ≡ some v
      → IsQueued capacity (D.remove V users id) (others id order)
  remove-IsQueued capacity users order id v q e =
      let present : elem order id ≡ true = q.listed id ∙ ap is_some e in
      let shorter : D.len V users ≡ suc (D.len V (D.remove V users id)) =
        ground (arith, D.len-remove V users id) in
      record {
        listed = λ j. ground (arith, elem-retain id j order, D.get-remove V users id j, q.listed j);
        distinct = IsDistinct-others id order q.distinct;
        counted = omega (arith, length-others id order q.distinct present, shorter, q.counted);
        bounded = omega (arith, shorter, q.bounded);
      }

  -- The removal of a user that is not cached, and the update of one that is, keep the queue.
  pub remove_absent-IsQueued :
      (capacity : ℕ) (users : D.Table V) (order : List String) (id : String)
      → IsQueued capacity users order
      → D.get V users id ≡ none
      → IsQueued capacity (D.remove V users id) order
  remove_absent-IsQueued capacity users order id q e =
      let same : D.len V users ≡ D.len V (D.remove V users id) =
        ground (arith, D.len-remove V users id) in
      record {
        listed = λ j. ground (
          arith,
          D.get-remove V users id j,
          q.listed j,
          String_eq.eq_iff id j,
          ap (D.get V users),
        );
        distinct = q.distinct;
        counted = q.counted ∙ same;
        bounded = omega (arith, same, q.bounded);
      }

  pub update-IsQueued :
      (capacity : ℕ) (users : D.Table V) (order : List String) (id : String) (v w : V)
      → IsQueued capacity users order
      → D.get V users id ≡ some w
      → IsQueued capacity (D.insert V users id v) order
  update-IsQueued capacity users order id v w q e =
      let same : D.len V (D.insert V users id v) ≡ D.len V users =
        ground (arith, D.len-insert V users id v) in
      record {
        listed = λ j. ground (
          arith,
          D.get-insert V users id j v,
          q.listed j,
          String_eq.eq_iff id j,
          ap (D.get V users),
        );
        distinct = q.distinct;
        counted = q.counted ∙ sym same;
        bounded = omega (arith, same, q.bounded);
      }

  len-enqueued :
      (users : D.Table V) (id : String) (v : V)
      → D.get V users id ≡ none
      → D.len V (D.insert V users id v) ≡ suc (D.len V users)
  len-enqueued users id v e = ground (arith, D.len-insert V users id v)

  -- With the new user at the end of the queue, the bound may be passed by one.
  enqueue-IsQueued :
      (capacity : ℕ) (users : D.Table V) (order : List String) (id : String) (v : V)
      → IsQueued capacity users order
      → D.get V users id ≡ none
      → IsQueued (suc capacity) (D.insert V users id v) (order ++ (id ∷ []))
  unfolding elem
  enqueue-IsQueued capacity users order id v q e =
      let longer = len-enqueued users id v e in
      let absent : elem order id ≡ false = q.listed id ∙ ap is_some e in
      record {
        listed = λ j.
            ground (arith, elem-append order (id ∷ []) j, D.get-insert V users id j v, q.listed j);
        distinct = IsDistinct-append order id q.distinct absent;
        counted = omega (arith, length-append order (id ∷ []), longer, q.counted);
        bounded = omega (arith, longer, q.bounded);
      }

  dequeue-IsQueued :
      (capacity : ℕ) (users : D.Table V) (order : List String) (oldest : String)
      → IsQueued (suc capacity) users (oldest ∷ order)
      → IsQueued capacity (D.remove V users oldest) order
  unfolding elem
  dequeue-IsQueued capacity users order oldest q =
      let present : is_some (D.get V users oldest) ≡ true =
        sym (q.listed oldest) ∙ ground (arith, String_eq.eq_iff oldest oldest) in
      let shorter : D.len V users ≡ suc (D.len V (D.remove V users oldest)) =
        ground (arith, D.len-remove V users oldest) in
      record {
        listed = λ j. ground (
          arith,
          q.listed j,
          D.get-remove V users oldest j,
          String_eq.eq_iff oldest j,
          ap (λ k. elem order k),
          q.distinct.0,
        );
        distinct = q.distinct.1;
        counted = omega (arith, q.counted, shorter);
        bounded = omega (arith, shorter, q.bounded);
      }

  tighten :
      (capacity : ℕ) (users : D.Table V) (order : List String)
      → D.len V users ≤ capacity
      → IsQueued (suc capacity) users order
      → IsQueued capacity users order
  tighten capacity users order h q = record {
    listed = q.listed;
    distinct = q.distinct;
    counted = q.counted;
    bounded = h;
  }

  -- The queue and the table after the eviction that the new user causes.
  pub evicted-IsQueued :
      (n : ℕ) (users : D.Table V) (order : List String) (id : String) (v : V) (over : ℕ)
      → IsQueued (suc n) users order
      → D.get V users id ≡ none
      → over ≡ D.len V (D.insert V users id v) - suc n
      → IsQueued
          (suc n)
          (remove_all D V (D.insert V users id v) (pop_oldest over id (order ++ (id ∷ []))).1)
          (pop_oldest over id (order ++ (id ∷ []))).0
  unfolding remove_all pop_oldest elem
  evicted-IsQueued n users order id v zero q e h =
      tighten (suc n) _ _ (omega (arith, h)) (enqueue-IsQueued (suc n) users order id v q e)
  evicted-IsQueued n users [] id v (suc over) q e h =
      absurd (omega (arith, h, q.counted, len-enqueued users id v e))
  evicted-IsQueued n users (oldest ∷ order) id v (suc (suc over)) q e h =
      absurd (omega (arith, h, q.bounded, len-enqueued users id v e))
  evicted-IsQueued n users (oldest ∷ order) id v (suc zero) q e h =
      let apart : (oldest == id) ≡ false = ground (arith, q.listed id) in
      rw apart (
        dequeue-IsQueued (suc n) (D.insert V users id v) (order ++ (id ∷ [])) oldest
          (enqueue-IsQueued (suc n) users (oldest ∷ order) id v q e))

  -- What holds of the queue by the capacity, less one: nothing where there is none.
  abbrev pub QueuedFor : Option ℕ → D.Table V → List String → Type 0
  QueuedFor none users order = Unit
  QueuedFor (some n) users order = IsQueued (suc n) users order

  pub removed-QueuedFor :
      (p : Option ℕ) (users : D.Table V) (order : List String) (id : String) (removed : Option V)
      → D.get V users id ≡ removed
      → QueuedFor p users order
      → QueuedFor p (D.remove V users id) (
          if is_some removed
            && is_some (elim p as (λ _. Option ℕ) [ none ↦ none | some n ↦ some (suc n) ])
          then others id order
          else order)
  removed-QueuedFor none users order id removed e q = tt
  removed-QueuedFor (some n) users order id none e q =
      remove_absent-IsQueued (suc n) users order id q e
  removed-QueuedFor (some n) users order id (some v) e q =
      remove-IsQueued (suc n) users order id v q e

  pub updated-QueuedFor :
      (p : Option ℕ) (users : D.Table V) (order : List String) (id : String) (v w : V)
      → D.get V users id ≡ some w
      → QueuedFor p users order
      → QueuedFor p (D.insert V users id v) order
  updated-QueuedFor none users order id v w e q = tt
  updated-QueuedFor (some n) users order id v w e q = update-IsQueued (suc n) users order id v w q e

pub new-QueuedFor : (D : DashMap) (V : Type 0) (p : Option ℕ) → QueuedFor D p (D.new V) []
new-QueuedFor D V none = tt
new-QueuedFor D V (some n) = new-IsQueued D (suc n)
