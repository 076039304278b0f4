-- ===== src/Realtime/Correlate/Settling.antt =====
-- Every pending call is settled, and once.
use mathlib.Core.Option.{some-injective}
use mathlib.Core.List.{Mem, mem-cons_self, mem-cons_of_mem}
use rocketsocket.Base.{
  ◌≤◌, String, ◌≡◌, refl, ap, ◌∙◌, inl, inr, Bool, true, none, some, [], ◌∷◌, arith, if◌then◌else◌,
  ◌==◌, ℕ_eq, String_eq, Bool-cases, Result, err, map_err, length, Option_eq,
}
use rocketsocket.Map.{Map, get}
use rocketsocket.Map.Entries.{All-get}
use rocketsocket.Map.Laws.{get-remove_self}
use rocketsocket.Realtime.Correlate.{
  DdpError, Correlator, Pending, delivered, unknown, caller_gone, server, not_sent, abandoned,
  Reply, cancel, resolve, disconnect, fail_all,
}
use rocketsocket.Realtime.Correlate.Invariant.{resolve-cancel, IsValid, IsCurrent}

fail_all-length-le :
    {S : Type 0} (V : Type 0) (is_open : S → Bool) (m : Map String (Pending S))
    → length (fail_all {V = V} is_open m) ≤ length m
unfolding fail_all
fail_all-length-le V is_open [] = omega arith
fail_all-length-le V is_open ((j, q) ∷ m) = ground (arith, fail_all-length-le V is_open m)

module _ {S V : Type 0} (is_open : S → Bool) where
  resolve_miss :
      (c : Correlator S) (id : String) (outcome : Result V (DdpError V))
      → get c.pending id ≡ none
      → resolve is_open c id outcome ≡ (c, unknown, [])
  unfolding resolve
  resolve_miss c id outcome e = rw (e, resolve) refl

  -- In a valid table, the reply to a pending call goes to its caller, as the server gave it, if the
  -- caller still waits; it is never taken for one of another connection; and a second reply finds
  -- no call.
  resolve_pending :
      (c : Correlator S) (id : String) (outcome again : Result V (DdpError V)) (p : Pending S)
      → IsValid c
      → get c.pending id ≡ some p
      → let (after, answer, sent) = resolve is_open c id outcome in
        (answer ≡ (if is_open p.reply then delivered else caller_gone))
        × (sent ≡ (if is_open p.reply then (p.reply, map_err server outcome) ∷ [] else []))
        × (resolve is_open after id again ≡ (after, unknown, []))
  unfolding resolve cancel
  resolve_pending c id outcome again p v e = (
    rw (e, resolve) (ground (arith, All-get (IsCurrent c.epoch) c.pending id p v.current e)),
    rw (e, resolve) (ground (arith, All-get (IsCurrent c.epoch) c.pending id p v.current e)),
    resolve_miss _ id again (
        ap (λ after. get after.pending id) (resolve-cancel is_open c id outcome)
        ∙ get-remove_self c.pending id),
  )

  -- The error that a disconnect gives to a pending call.
  abbrev pub verdict : String → Pending S → S × Reply V
  verdict id p = (p.reply, err (if p.sent then abandoned id else not_sent))

  pub fail_all-mem :
      (m : Map String (Pending S)) (id : String) (p : Pending S)
      → get m id ≡ some p
      → is_open p.reply ≡ true
      → Mem (verdict id p) (fail_all is_open m)
  unfolding fail_all get
  fail_all-mem [] id p e h = cc
  fail_all-mem ((j, q) ∷ m) id p e h = elim (Bool-cases (j == id)) [
    | inl same ↦
        let named : j ≡ id = (String_eq.eq_iff j id).0 same in
        let found : q ≡ p = some-injective q p (rw same at e) in rw (named, found, h) mem-cons_self
    | inr other ↦
        let later = fail_all-mem m id p (rw other at e) h in
        elim (Bool-cases (is_open q.reply)) [
          | inl waits ↦ rw waits (mem-cons_of_mem _ later)
          | inr gone ↦ rw gone later
        ]
  ]

  -- A disconnect settles every pending call whose caller still waits: as abandoned if its frame was
  -- sent, and else as not sent. It leaves no call pending, so no later reply reaches a caller.
  pub disconnect_settles :
      (c : Correlator S) (id : String) (p : Pending S) (late : Result V (DdpError V))
      → get c.pending id ≡ some p
      → is_open p.reply ≡ true
      → let (after, count, sent) = disconnect is_open c in
        Mem (verdict id p) sent
        × (length sent ≤ count)
        × (resolve is_open after id late ≡ (after, unknown, []))
  unfolding disconnect resolve get
  disconnect_settles c id p late e h =
      (fail_all-mem c.pending id p e h, fail_all-length-le V is_open c.pending, refl)
