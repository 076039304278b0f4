-- ===== src/Cache/Messages/Rings.antt =====
-- A room's ring never holds more ids than the configuration allows.
use rocketsocket.Base.{
  ℕ, zero, suc, ◌+◌, ◌≤◌, String, ◌≡◌, refl, inl, inr, Bool, Option, none, some, List, [], ◌∷◌,
  ◌++◌, arith, ltb, ◌==◌, ℕ_eq, String_eq, Bool-cases, length, retain, Option_eq,
}
use rocketsocket.Cache.DashMap.{DashMap}
use rocketsocket.Cache.Invariant.{IsBounded}
use rocketsocket.Cache.Store.{Cache, ring_of}
use rocketsocket.Cache.Messages.{pop_back, trim, link_message, put_ring}

abbrev length_popped : Option (String × List String) → ℕ
length_popped none = 0
length_popped (some (y, ys)) = suc (length ys)

pop_back_lem : (ring : List String) → length_popped (pop_back ring) ≡ length ring
unfolding pop_back
pop_back_lem [] = refl
pop_back_lem (x ∷ ring) = go (pop_back ring) (pop_back_lem ring)
  where
    go :
        (p : Option (String × List String))
        → length_popped p ≡ length ring
        → length_popped (elim p [ none ↦ some (x, []) | some (y, ys) ↦ some (y, x ∷ ys) ])
          ≡ suc (length ring)
    go none h = omega (arith, h)
    go (some (y, ys)) h = omega (arith, h)

-- One turn of the loop on a ring, with what the rest of the loop does.
turn-le :
    (fuel capacity : ℕ) (ring evicted : List String)
    → length ring ≤ suc fuel + capacity
    → ((left evicted : List String)
        → length left ≤ fuel + capacity
        → length (trim fuel capacity left evicted).0 ≤ capacity)
    → (p : Option (String × List String)) → length_popped p ≡ length ring
    → length
        (elim p as (λ _. List String × List String) [
          | none ↦ (ring, evicted)
          | some (oldest, left) ↦ trim fuel capacity left (evicted ++ (oldest ∷ []))
        ]).0
      ≤ capacity
turn-le fuel capacity ring evicted h rest none e = omega (arith, e)
turn-le fuel capacity ring evicted h rest (some (oldest, left)) e =
    rest left (evicted ++ (oldest ∷ [])) (omega (arith, e, h))

-- A ring that is at most `fuel` ids over the capacity is cut down to it.
trim-le :
    (fuel capacity : ℕ) (ring evicted : List String)
    → length ring ≤ fuel + capacity
    → length (trim fuel capacity ring evicted).0 ≤ capacity
unfolding trim
trim-le zero capacity ring evicted h = omega (arith, h)
trim-le (suc fuel) capacity ring evicted h = elim (Bool-cases (ltb capacity (length ring))) [
  | inl over ↦
      rw (over, trim)
        (turn-le fuel capacity ring evicted h (trim-le fuel capacity) (pop_back ring)
          (pop_back_lem ring))
  | inr fits ↦ rw (fits, trim) (ground arith)
]

pub length-retain : {A : Type 0} (p : A → Bool) (xs : List A) → length (retain p xs) ≤ length xs
length-retain p [] = omega arith
length-retain p (x ∷ xs) = ground (arith, length-retain p xs)

module _ {D : DashMap} {R : Type 0} where
  pub link_message-IsBounded :
      (c : Cache D R) (room_id id : String) → IsBounded c → IsBounded (link_message c room_id id)
  unfolding link_message
  link_message-IsBounded c room_id id bounded other =
      let ring = id ∷ ring_of D c.room_messages room_id in
      let kept = trim-le (length ring) c.config.message_cache_size ring [] (omega arith) in
      elim (Bool-cases (room_id == other)) [
        | inl same ↦ rw (D.get-insert, same) kept
        | inr apart ↦ rw (D.get-insert, apart) (bounded other)
      ]

  pub put_ring-IsBounded :
      (c : Cache D R) (room_id : String) (ring : List String)
      → length ring ≤ c.config.message_cache_size
      → IsBounded c
      → IsBounded (put_ring c room_id ring)
  unfolding put_ring
  put_ring-IsBounded c room_id [] h bounded other = elim (Bool-cases (room_id == other)) [
    | inl same ↦ rw (D.get-remove, same) (omega arith)
    | inr apart ↦ rw (D.get-remove, apart) (bounded other)
  ]
  put_ring-IsBounded c room_id (x ∷ ring) h bounded other = elim (Bool-cases (room_id == other)) [
    | inl same ↦ rw (D.get-insert, same) h
    | inr apart ↦ rw (D.get-insert, apart) (bounded other)
  ]
