-- ===== src/Realtime/Standby/Matching.antt =====
-- Which waiter an event goes to.
use rocketsocket.Base.{
  ℕ, suc, ◌≡◌, refl, ap, ◌⊎◌, inl, inr, Bool, true, false, none, some, List, [], ◌∷◌, ◌++◌, ℕ_eq,
  String_eq, Bool-cases, All, retain, Option_eq,
}
use mathlib.Core.Path.{subst}
use rocketsocket.Realtime.Standby.{position, remove_at, Waiter, Standby, hand_over, offer, process}

module _ {ℓ} {A : Type ℓ} (p : A → Bool) where
  -- The first element of a list that passes the test, and what is around it.
  pub record First (xs : List A) : Type ℓ where
    pub before : List A
    pub first : A
    pub after : List A
    pub split : xs ≡ before ++ (first ∷ after)
    pub passed_over : All (λ x. p x ≡ false) before
    pub passes : p first ≡ true

  position-cases :
      (xs : List A)
      → ((position p xs ≡ none) × All (λ x. p x ≡ false) xs)
        ⊎ ((f : First xs) × (i : ℕ) × (position p xs ≡ some i)
            × (remove_at i xs ≡ some (f.first, f.before ++ f.after)))
  unfolding position remove_at
  position-cases [] = inl (refl, tt)
  position-cases (x ∷ xs) = elim (Bool-cases (p x)) [
    | inl hit ↦ inr (
      record { before = []; first = x; after = xs; split = refl; passed_over = tt; passes = hit },
      0,
      rw (hit, position) refl,
      refl,
    )
    | inr miss ↦ elim (position-cases xs) [
      | inl (absent, others) ↦ inl (rw (miss, absent, position) refl, (miss, others))
      | inr (f, i, found, taken) ↦ inr (
        record {
          before = x ∷ f.before;
          first = f.first;
          after = f.after;
          split = ap (λ l. x ∷ l) f.split;
          passed_over = (miss, f.passed_over);
          passes = f.passes;
        },
        suc i,
        rw (miss, found, position) refl,
        rw (taken, remove_at) refl,
      )
    ]
  ]

retain-All : {A : Type 0} (p : A → Bool) (xs : List A) → All (λ x. p x ≡ true) (retain p xs)
retain-All p [] = tt
retain-All p (x ∷ xs) = elim (Bool-cases (p x)) [
  | inl hit ↦ rw (hit, retain) (hit, retain-All p xs)
  | inr miss ↦ rw (miss, retain) (retain-All p xs)
]

All-middle :
    {A : Type 0} (P : A → Type 0) (before : List A) (x : A) (after : List A)
    → All P (before ++ (x ∷ after))
    → P x
All-middle P [] x after h = h.0
All-middle P (y ∷ before) x after h = All-middle P before x after h.1

module _ {E S : Type 0} (is_open : S → Bool) where
  abbrev still_open : Standby E S → Standby E S
  still_open = retain (λ w. is_open w.sender)

  -- The waiters that are left, and what is sent, where the first match has an open channel.
  hand_over_open :
      (event : E) (w : Waiter E S) (left : Standby E S)
      → is_open w.sender ≡ true
      → hand_over is_open event w left ≡ (left, true, (w.sender, event) ∷ [])
  unfolding hand_over
  hand_over_open event w left h = rw h refl

  offer-First :
      (event : E) (waiters : Standby E S)
      → All (λ w. is_open w.sender ≡ true) waiters
      → ((offer is_open event waiters ≡ some (waiters, false, []))
          × All (λ w. w.predicate event ≡ false) waiters)
        ⊎ ((f : First (λ w. w.predicate event) waiters) × (offer is_open event waiters
              ≡ some (f.before ++ f.after, true, (f.first.sender, event) ∷ [])))
  unfolding offer
  offer-First event waiters all_open = elim (position-cases (λ w. w.predicate event) waiters) [
    | inl (absent, others) ↦ inl (rw (absent, offer) refl, others)
    | inr (f, i, found, taken) ↦
        let opened : All (λ (w : Waiter E S). is_open w.sender ≡ true)
            (f.before ++ (f.first ∷ f.after)) =
          subst (All (λ (w : Waiter E S). is_open w.sender ≡ true)) f.split all_open in
        let first_open =
          All-middle (λ w. is_open w.sender ≡ true) f.before f.first f.after opened in
        inr (
          f,
          rw (found, offer)
              (rw (taken, offer)
                (ap some (hand_over_open event f.first (f.before ++ f.after) first_open))),
        )
  ]

  -- An event goes to the first waiter, in the order of registration, whose receiver still exists and
  -- whose predicate it matches, and to no other: that waiter leaves, the others stay in order, and
  -- the answer is true. Where there is none, nothing is sent and the answer is false. In both cases
  -- the waiters whose receivers are gone leave, and no removal panics.
  pub process-First :
      (waiters : Standby E S) (event : E)
      → ((process is_open waiters event ≡ some (retain (λ w. is_open w.sender) waiters, false, []))
          × All (λ w. w.predicate event ≡ false) (retain (λ w. is_open w.sender) waiters))
        ⊎ ((f : First (λ w. w.predicate event) (retain (λ w. is_open w.sender) waiters)) × (process
                is_open waiters event
              ≡ some (f.before ++ f.after, true, (f.first.sender, event) ∷ [])))
  unfolding process
  process-First waiters event =
      offer-First event (still_open waiters) (retain-All (λ w. is_open w.sender) waiters)
