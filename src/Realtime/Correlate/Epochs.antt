-- ===== src/Realtime/Correlate/Epochs.antt =====
-- No entry of the table has an earlier epoch than the table itself.
use rocketsocket.Base.{
  String, refl, ◌≢◌, inl, inr, Bool, List, [], ◌∷◌, arith, ℕ_eq, String_eq, Option-cases, Result,
  All, Option_eq,
}
use rocketsocket.Map.{get}
use rocketsocket.Map.Entries.{All-insert, All-remove, All-get}
use rocketsocket.Protocol.{DdpError}
use rocketsocket.Realtime.Correlate.{
  Correlator, Resolution, stale_epoch, new, register, mark_sent, cancel, resolve, disconnect,
  fresh_id,
}
use rocketsocket.Realtime.Correlate.Invariant.{IsCurrent, resolve-cancel}
use rocketsocket.Realtime.Correlate.History.{
  Call, registers, marks, resolves, cancels, disconnects, step,
}

-- The table's entries belong to the current connection.
abbrev Current : {S : Type 0} → Correlator S → Type 0
Current c = All (IsCurrent c.epoch) c.pending

module _ {S : Type 0} where
  cancel-Current : (c : Correlator S) (id : String) → Current c → Current (cancel c id).0
  unfolding cancel
  cancel-Current c id v = All-remove _ c.pending id v

  mark_sent-Current : (c : Correlator S) (id : String) → Current c → Current (mark_sent c id)
  unfolding mark_sent
  mark_sent-Current c id v = elim (Option-cases (get c.pending id)) [
    | inl e ↦ rw (e, mark_sent) v
    | inr (p, e) ↦
        rw (e, mark_sent)
          (All-insert _ c.pending id _ v (All-get (IsCurrent c.epoch) c.pending id p v e))
  ]

module _ {S V : Type 0} (is_open : S → Bool) where
  -- What the replies in a sequence of calls find.
  abbrev pub resolutions : Correlator S → List (Call S V) → List Resolution
  resolutions c [] = []
  resolutions c (resolves id outcome ∷ calls) =
      (resolve is_open c id outcome).1 ∷ resolutions (step is_open c (resolves id outcome)).0 calls
  resolutions c (call ∷ calls) = resolutions (step is_open c call).0 calls

  step-Current : (c : Correlator S) (call : Call S V) → Current c → Current (step is_open c call).0
  unfolding register disconnect
  step-Current c (registers reply) v =
      All-insert (IsCurrent c.epoch) c.pending (fresh_id c) _ v refl
  step-Current c (marks id) v = mark_sent-Current c id v
  step-Current c (resolves id outcome) v =
      rw (resolve-cancel is_open c id outcome) (cancel-Current c id v)
  step-Current c (cancels id) v = cancel-Current c id v
  step-Current c disconnects v = tt

  resolve-Current :
      (c : Correlator S) (id : String) (outcome : Result V (DdpError V))
      → Current c
      → (resolve is_open c id outcome).1 ≢ stale_epoch
  unfolding resolve
  resolve-Current c id outcome v = elim (Option-cases (get c.pending id)) [
    | inl e ↦ rw (e, resolve) (λ h. cc)
    | inr (p, e) ↦ λ h. ground (arith, All-get (IsCurrent c.epoch) c.pending id p v e)
  ]

  resolutions-Current :
      (calls : List (Call S V)) (c : Correlator S)
      → Current c
      → All (λ answer. answer ≢ stale_epoch) (resolutions c calls)
  resolutions-Current [] c v = tt
  resolutions-Current (registers reply ∷ calls) c v =
      resolutions-Current calls (step {V = V} is_open c (registers reply)).0
        (step-Current c (registers reply) v)
  resolutions-Current (marks id ∷ calls) c v =
      resolutions-Current calls (step {V = V} is_open c (marks id)).0 (step-Current c (marks id) v)
  resolutions-Current (cancels id ∷ calls) c v =
      resolutions-Current calls (step {V = V} is_open c (cancels id)).0
        (step-Current c (cancels id) v)
  resolutions-Current (disconnects ∷ calls) c v =
      resolutions-Current calls (step {V = V} is_open c disconnects).0
        (step-Current c disconnects v)
  resolutions-Current (resolves id outcome ∷ calls) c v = (
    resolve-Current c id outcome v,
    resolutions-Current calls (step {V = V} is_open c (resolves id outcome)).0
        (step-Current c (resolves id outcome) v),
  )

  -- Whatever is registered, marked, answered, cancelled and disconnected on a new table, in any
  -- order, no reply is ever found to be one of an earlier connection.
  pub never_stale :
      (prefix : String) (calls : List (Call S V))
      → All (λ answer. answer ≢ stale_epoch) (resolutions (new prefix) calls)
  unfolding new
  never_stale prefix calls = resolutions-Current calls (new prefix) tt
