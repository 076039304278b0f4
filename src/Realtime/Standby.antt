-- ===== src/Realtime/Standby.antt =====
-- crates/rocketsocket-realtime/src/standby.rs: the waiters for an event, in the order in which they
-- registered. `E` is the type of events, `S` the sending half of a `tokio::sync::oneshot` channel,
-- and `is_open` tests whether its receiving half still exists, on which `send` succeeds. The lock is
-- never poisoned: no caller panics while it holds it.
pub mod Matching
mod Tests
use rocketsocket.Base.{
  ℕ, zero, suc, ◌+◌, ◌-◌, ◌*◌, ◌/◌, ◌%◌, ◌^◌, ◌≤◌, ◌<◌, String, ◌≡◌, refl, sym, ap, ◌∙◌, ◌≢◌, ◌↔◌,
  ◌⊎◌, inl, inr, Bool, true, false, not, ◌&&◌, ◌||◌, Option, none, some, List, [], ◌∷◌, ◌++◌, arith,
  ltb, leb, nat_eq, if◌then◌else◌, Eq, ◌==◌, ℕ_eq, String_eq, Bool-cases, if-keeps, Result-cases,
  elem-append, elem-retain, and_then, Option-cases, is_some, is_some_and, Result, ok, err, map_err,
  length, All, retain, elem, option_eq, option_eq_iff, Option_eq,
}

module _ {ℓ} {A : Type ℓ} where
  -- `Iterator::position`.
  unfoldable pub position : (A → Bool) → List A → Option ℕ
  position p [] = none
  position p (x ∷ xs) =
      let later = position p xs in
      if p x then some 0 else elim later as (λ _. Option ℕ) [ none ↦ none | some i ↦ some (suc i) ]

  -- `Vec::remove`, with the element; `none` where it panics.
  unfoldable pub remove_at : ℕ → List A → Option (A × List A)
  remove_at i [] = none
  remove_at zero (x ∷ xs) = some (x, xs)
  remove_at (suc i) (x ∷ xs) = elim (remove_at i xs) [
    | none ↦ none
    | some (y, ys) ↦ some (y, x ∷ ys)
  ]

module _ (E S : Type 0) where
  pub record Waiter : Type 0 where
    pub predicate : E → Bool
    pub sender : S

  abbrev pub Standby : Type 0
  Standby = List Waiter

module _ {E S : Type 0} where
  -- `new`.
  abbrev pub no_waiters : Standby E S
  no_waiters = []

  -- `pending`.
  unfoldable pub waiting : Standby E S → ℕ
  waiting waiters = length waiters

  unfoldable pub wait_for : Standby E S → (E → Bool) → S → Standby E S
  wait_for waiters predicate sender =
      waiters ++ (record { predicate = predicate; sender = sender } ∷ [])

  module _ (is_open : S → Bool) where
    -- The hand-over of the event to the waiter that was taken out, with what is sent.
    unfoldable pub hand_over : E → Waiter E S → Standby E S → Standby E S × Bool × List (S × E)
    hand_over event waiter left = (
      left,
      is_open waiter.sender,
      (if is_open waiter.sender then (waiter.sender, event) ∷ [] else []),
    )

    -- `none` where the removal panics.
    unfoldable pub offer : E → Standby E S → Option (Standby E S × Bool × List (S × E))
    unfolding position remove_at hand_over
    offer event waiters = elim (position (λ w. w.predicate event) waiters) [
      | none ↦ some (waiters, false, [])
      | some index ↦ elim (remove_at index waiters) [
        | none ↦ none
        | some (waiter, left) ↦ some (hand_over event waiter left)
      ]
    ]

    unfoldable pub process : Standby E S → E → Option (Standby E S × Bool × List (S × E))
    unfolding offer
    process waiters event = offer event (retain (λ w. is_open w.sender) waiters)
