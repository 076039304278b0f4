-- ===== src/Realtime/Standby/Tests.antt =====
-- Three waiters for numbers, of which the first has gone and the other two want the same event.
use rocketsocket.Base.{
  ℕ, ◌≡◌, refl, ◌⊎◌, Bool, true, false, some, [], ◌∷◌, ◌++◌, ltb, ℕ_eq, String_eq, All, retain,
  Option_eq,
}
use rocketsocket.Realtime.Standby.{
  Standby, no_waiters, wait_for, process, offer, position, remove_at, hand_over,
}
use rocketsocket.Realtime.Standby.Matching.{First, process-First}

abbrev large : ℕ → Bool
large n = ltb 10 n

abbrev waiters : Standby ℕ ℕ
waiters = wait_for (wait_for (wait_for no_waiters large 0) large 1) large 2

abbrev is_open : ℕ → Bool
is_open s = ltb 0 s

process_run :
    process is_open waiters 11
    ≡ some (record { predicate = large; sender = 2 } ∷ [], true, (1, 11) ∷ [])
unfolding wait_for process offer position remove_at hand_over
process_run = refl

process-First_example :
    ((process is_open waiters 11 ≡ some (retain (λ w. is_open w.sender) waiters, false, []))
      × All (λ w. w.predicate 11 ≡ false) (retain (λ w. is_open w.sender) waiters))
    ⊎ ((f : First (λ w. w.predicate 11) (retain (λ w. is_open w.sender) waiters)) × (process is_open
            waiters 11
          ≡ some (f.before ++ f.after, true, (f.first.sender, 11) ∷ [])))
process-First_example = process-First is_open waiters 11
