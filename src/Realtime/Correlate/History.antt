-- ===== src/Realtime/Correlate/History.antt =====
-- A history of calls of the correlator: no pending call is lost, and none is settled twice.
use rocketsocket.Base.{
  ℕ, suc, ◌+◌, ◌≤◌, ◌<◌, String, ◌≡◌, refl, ap, inl, inr, Bool, List, [], ◌∷◌, arith, if◌then◌else◌,
  ℕ_eq, String_eq, Option-cases, Result, length, Option_eq,
}
use rocketsocket.Map.{get}
use rocketsocket.Map.Laws.{length-insert, length-remove, remove_absent}
use rocketsocket.Protocol.{DdpError}
use rocketsocket.Realtime.Correlate.{
  Correlator, Resolution, delivered, unknown, stale_epoch, caller_gone, u64_mod, register,
  mark_sent, cancel, resolve, disconnect,
}
use rocketsocket.Realtime.Correlate.Invariant.{
  IsValid, get-fresh_id, register-IsValid, cancel-IsValid, mark_sent-IsValid, resolve-cancel,
  disconnect-IsValid,
}

pub data Call (S V : Type 0) : Type 0 where
  registers : S → Call S V
  marks : String → Call S V
  resolves : String → Result V (DdpError V) → Call S V
  cancels : String → Call S V
  disconnects : Call S V

-- How many calls a resolution takes from the table.
abbrev pub taken : Resolution → ℕ
taken unknown = 0
taken delivered = 1
taken stale_epoch = 1
taken caller_gone = 1

-- The table after a call, the number of waiters that it adds, and of those that it reports settled.
abbrev pub After : Type 0 → Type 0
After S = Correlator S × ℕ × ℕ

module _ {S : Type 0} where
  -- The table is valid, and no waiter has come or gone unreported.
  abbrev pub Balanced : Correlator S → After S → Type 0
  Balanced c (after, opened, closed) =
      IsValid after × (length c.pending + opened ≡ length after.pending + closed)

  length-register :
      (c : Correlator S) (reply : S)
      → IsValid c
      → length (register c reply).0.pending ≡ suc (length c.pending)
  unfolding register
  length-register c reply v = rw (length-insert, get-fresh_id c v) refl

  length-mark_sent :
      (c : Correlator S) (id : String) → length (mark_sent c id).pending ≡ length c.pending
  unfolding mark_sent
  length-mark_sent c id = elim (Option-cases (get c.pending id)) [
    | inl e ↦ rw (e, mark_sent) refl
    | inr (p, e) ↦ rw (e, mark_sent) (rw (length-insert, e) refl)
  ]

  next_id-mark_sent : (c : Correlator S) (id : String) → (mark_sent c id).next_id ≡ c.next_id
  unfolding mark_sent
  next_id-mark_sent c id = elim (Option-cases (get c.pending id)) [
    | inl e ↦ rw (e, mark_sent) refl
    | inr (p, e) ↦ rw (e, mark_sent) refl
  ]

  length-cancel :
      (c : Correlator S) (id : String)
      → IsValid c
      → length c.pending + 0 ≡ length (cancel c id).0.pending + (if (cancel c id).1 then 1 else 0)
  unfolding cancel
  length-cancel c id v =
      ground (arith, length-remove c.pending id v.functional, remove_absent c.pending id)

  count-disconnect :
      (V : Type 0) (is_open : S → Bool) (c : Correlator S)
      → let (after, count, sent) = disconnect {V = V} is_open c in
        length c.pending + 0 ≡ length after.pending + count
  unfolding disconnect
  count-disconnect V is_open c = omega arith

module _ {S V : Type 0} (is_open : S → Bool) where
  abbrev pub step : Correlator S → Call S V → After S
  step c (registers reply) = ((register c reply).0, 1, 0)
  step c (marks id) = (mark_sent c id, 0, 0)
  step c (resolves id outcome) =
      let (after, answer, sent) = resolve is_open c id outcome in (after, 0, taken answer)
  step c (cancels id) = let (after, known) = cancel c id in (after, 0, if known then 1 else 0)
  step c disconnects = let (after, count, sent) = disconnect {V = V} is_open c in (after, 0, count)

  abbrev pub run : Correlator S → List (Call S V) → After S
  run c [] = (c, 0, 0)
  run c (call ∷ calls) =
      let (next, opened, closed) = step c call in
      let (last, opened', closed') = run next calls in (last, opened + opened', closed + closed')

  taken-removed :
      (c : Correlator S) (id : String) (outcome : Result V (DdpError V))
      → IsValid c
      → length c.pending ≡ length (cancel c id).0.pending + taken (resolve is_open c id outcome).1
  unfolding cancel resolve
  taken-removed c id outcome v = elim (Option-cases (get c.pending id)) [
    | inl e ↦ rw (e, resolve) (ground (arith, remove_absent c.pending id))
    | inr (p, e) ↦ rw (e, resolve) (ground (arith, length-remove c.pending id v.functional))
  ]

  next_id-step-le : (c : Correlator S) (call : Call S V) → (step c call).0.next_id ≤ c.next_id + 1
  unfolding register cancel disconnect
  next_id-step-le c (registers reply) = omega arith
  next_id-step-le c (marks id) = omega (arith, next_id-mark_sent c id)
  next_id-step-le c (resolves id outcome) =
      omega (arith, ap (λ (d : Correlator S). d.next_id) (resolve-cancel is_open c id outcome))
  next_id-step-le c (cancels id) = omega arith
  next_id-step-le c disconnects = omega arith

  step-Balanced :
      (c : Correlator S) (call : Call S V)
      → IsValid c
      → c.next_id + 1 < u64_mod
      → Balanced c (step c call)
  step-Balanced c (registers reply) v h =
      (register-IsValid c reply h v, omega (arith, length-register c reply v))
  step-Balanced c (marks id) v h = (mark_sent-IsValid c id v, omega (arith, length-mark_sent c id))
  step-Balanced c (resolves id outcome) v h =
      rw (resolve-cancel is_open c id outcome)
        (cancel-IsValid c id v, omega (arith, taken-removed c id outcome v))
  step-Balanced c (cancels id) v h = (cancel-IsValid c id v, length-cancel c id v)
  step-Balanced c disconnects v h = (disconnect-IsValid V is_open c v, count-disconnect V is_open c)

  -- Through any history of calls that starts from a valid table and does not use up the 64-bit
  -- counter of ids, the table stays valid, and its waiters at the end are, in number, those at the
  -- start and those registered, less those that a reply, a cancellation or a disconnect has
  -- settled.
  pub run-Balanced :
      (calls : List (Call S V)) (c : Correlator S)
      → IsValid c
      → c.next_id + length calls < u64_mod
      → Balanced c (run c calls)
  run-Balanced [] c v h = (v, refl)
  run-Balanced (call ∷ calls) c v h =
      let (v', here) = step-Balanced c call v (omega arith) in
      let (v'', there) =
        run-Balanced calls (step c call).0 v' (omega (arith, next_id-step-le c call)) in
      (v'', omega arith)
