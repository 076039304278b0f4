-- ===== src/Realtime/Connection/Writing.antt =====
-- The order of what the socket loop writes.
use rocketsocket.Base.{
  ◌≤◌, String, ◌≡◌, refl, sym, ap, ◌∙◌, inl, inr, false, Option, none, some, List, [], ◌∷◌, ◌++◌,
  arith, ℕ_eq, String_eq, length, Option_eq,
}
use rocketsocket.Realtime.Backoff.{Rng}
use rocketsocket.Realtime.Connection.{Outbound, Runner}
use rocketsocket.Realtime.Connection.Polls.{
  Offer, accepted, refused, broken, handed, writable, hand_over, write,
}
use rocketsocket.Realtime.Connection.Tracking.Outputs.{Popped, popped, pop-cases}

assoc {ℓ} : {A : Type ℓ} (xs ys zs : List A) → (xs ++ ys) ++ zs ≡ xs ++ (ys ++ zs)
assoc [] ys zs = refl
assoc (x ∷ xs) ys zs = ap (λ rest. x ∷ rest) (assoc xs ys zs)

append_nil {ℓ} : {A : Type ℓ} (xs : List A) → xs ++ [] ≡ xs
append_nil [] = refl
append_nil (x ∷ xs) = ap (λ rest. x ∷ rest) (append_nil xs)

module _ {r : Rng} {V S : Type 0} where
  -- `taken` is accepted, `lost` is neither accepted nor kept, and the rest is kept, in order.
  pub record Ordered (x y : Runner r V S) (error : Option String) (taken lost : List (Outbound V))
      : Type 0 where
    pub accepted : handed y ≡ handed x ++ taken
    pub kept : taken ++ (lost ++ (y.priority ++ y.app)) ≡ x.priority ++ x.app
    pub few : length lost ≤ 1
    pub failing : error ≡ none → lost ≡ []
    pub gated : writable x ≡ false → y.app ≡ x.app

  unchanged : (x : Runner r V S) (error : Option String) → Ordered x x error [] []
  unchanged x error = record {
    accepted = sym (append_nil (handed x));
    kept = refl;
    few = omega arith;
    failing = λ e. refl;
    gated = λ e. refl;
  }

  queues_kept :
      (x : Runner r V S) (o : Outbound V) (priority app : List (Outbound V))
      → Popped (writable x) x.priority x.app o priority app
      → (o ∷ (priority ++ app) ≡ x.priority ++ x.app) × (writable x ≡ false → app ≡ x.app)
  queues_kept x o priority app (inl (first, same)) = (rw (first, same) refl, λ e. sym same)
  queues_kept x o priority app (inr (empty, empty', first, w)) =
      (rw (empty, empty', first) refl, λ e. cc)

  dropped :
      (x : Runner r V S) (o : Outbound V) (priority app : List (Outbound V)) (error : String)
      → Popped (writable x) x.priority x.app o priority app
      → Ordered x (popped x priority app) (some error) [] (o ∷ [])
  unfolding handed
  dropped x o priority app error from =
      let (same, same_app) = queues_kept x o priority app from in
      record {
        accepted = sym (append_nil (handed x));
        kept = same;
        few = omega arith;
        failing = λ e. cc;
        gated = same_app;
      }

  taken_one :
      (x y : Runner r V S) (o : Outbound V) (priority app : List (Outbound V))
      (error : Option String) (taken lost : List (Outbound V))
      → Popped (writable x) x.priority x.app o priority app
      → Ordered (hand_over (popped x priority app) o) y error taken lost
      → Ordered x y error (o ∷ taken) lost
  unfolding handed hand_over
  taken_one x y o priority app error taken lost from h =
      let (same, same_app) = queues_kept x o priority app from in
      record {
        accepted = h.accepted ∙ assoc (handed x) (o ∷ []) taken;
        kept = ap (λ rest. o ∷ rest) h.kept ∙ same;
        few = h.few;
        failing = h.failing;
        gated = λ e. h.gated e ∙ same_app e;
      }

  -- Whatever the socket answers, it accepts a front part of the protocol queue followed by the
  -- application queue, in order, and the rest stays queued, in order, except that a failing write
  -- loses at most one frame between them. Before the session is ready, no application frame leaves
  -- its queue.
  pub write-Ordered :
      (x : Runner r V S) (offers : List Offer)
      → let (y, error) = write x offers in
        (taken : List (Outbound V)) × (lost : List (Outbound V)) × Ordered x y error taken lost
  unfolding write
  write-Ordered x [] = ([], [], unchanged x none)
  write-Ordered x (offer ∷ offers) = elim (pop-cases (writable x) x.priority x.app) [
    | inl e ↦ rw (e, write) ([], [], unchanged x none)
    | inr (o, priority, app, e, from) ↦
        let next = hand_over (popped x priority app) o in
        let (taken, lost, h) = write-Ordered next offers in
        rw (e, write)
          (elim offer
            as (λ offer.
              let (y, error) = elim offer as (λ _. Runner r V S × Option String) [
                | accepted ↦ write next offers
                | refused error ↦ (popped x priority app, some error)
                | broken error ↦ (x, some error)
              ] in
              (taken : List (Outbound V)) × (lost : List (Outbound V)) × Ordered x y error taken
                lost) [
                  | accepted ↦ (o ∷ taken, lost, taken_one x _ o priority app _ taken lost from h)
                  | refused error ↦ ([], o ∷ [], dropped x o priority app error from)
                  | broken error ↦ ([], [], unchanged x (some error))
                ])
  ]
