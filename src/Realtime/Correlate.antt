-- ===== src/Realtime/Correlate.antt =====
-- crates/rocketsocket-realtime/src/correlate.rs: the table of pending calls. `S` is the sending
-- half of a `tokio::sync::oneshot` channel. A method takes the test `is_open` of whether the
-- receiving half of a channel still exists, on which `send` succeeds, and gives what it sends.
mod Tests
pub mod Invariant
pub mod Settling
pub mod History
pub mod Epochs
pub mod Wire
use Prim.Native.String.{◌++◌}
use rocketsocket.Base.{
  ℕ, ◌+◌, ◌%◌, ◌^◌, String, List, [], ◌∷◌, Option, none, some, Bool, true, false, ◌==◌, String_eq,
  ℕ_eq, if◌then◌else◌, Result, ok, err, map_err, is_some, length, map,
}
use rocketsocket.Base.Texts.{to_decimal}
use rocketsocket.Map.{Map, empty, get, insert, remove, map_values}
use rocketsocket.Protocol.{DdpError}

abbrev pub u64_mod : ℕ
u64_mod = 2 ^ 64

abbrev pub Epoch : Type 0
Epoch = ℕ

-- `Epoch::next`, which wraps.
unfoldable pub next_epoch : Epoch → Epoch
next_epoch e = (e + 1) % u64_mod

pub data CallError (V : Type 0) : Type 0 where
  server : DdpError V → CallError V
  not_sent : CallError V
  abandoned : (id : String) → CallError V

abbrev pub Reply : Type 0 → Type 0
Reply V = Result V (CallError V)

pub record Pending (S : Type 0) : Type 0 where
  pub epoch : Epoch
  pub sent : Bool
  pub reply : S

pub record Correlator (S : Type 0) : Type 0 where
  pub epoch : Epoch
  pub next_id : ℕ
  pub prefix : String
  pub pending : Map String (Pending S)

pub data Resolution : Type 0 where
  delivered unknown stale_epoch caller_gone : Resolution

module _ {S : Type 0} where
  unfoldable pub new : String → Correlator S
  new prefix = record { epoch = 0; next_id = 0; prefix = prefix; pending = empty }

  -- The id of the next call.
  abbrev pub fresh_id : Correlator S → String
  fresh_id c = c.prefix ++ to_decimal c.next_id

  -- `reply` is the sending half of the channel that the method opens; its caller gets the other.
  unfoldable pub register : Correlator S → S → Correlator S × String
  register c reply =
      let entry : Pending S = record { epoch = c.epoch; sent = false; reply = reply } in
      (
        record c {
          next_id = (c.next_id + 1) % u64_mod;
          pending = insert c.pending (fresh_id c) entry;
        },
        fresh_id c,
      )

  unfoldable pub mark_sent : Correlator S → String → Correlator S
  mark_sent c id = elim (get c.pending id) [
    | none ↦ c
    | some p ↦ record c { pending = insert c.pending id (record p { sent = true }) }
  ]

  -- What a failed connection tells the caller of a pending call.
  unfoldable pub failure : {V : Type 0} → String → Pending S → CallError V
  failure id p = if p.sent then abandoned id else not_sent

  unfoldable pub cancel : Correlator S → String → Correlator S × Bool
  cancel c id = (record c { pending = remove c.pending id }, is_some (get c.pending id))

  module _ {V : Type 0} (is_open : S → Bool) where
    -- The removed entry's part of `resolve`.
    unfoldable pub settle :
        Epoch → Pending S → Result V (DdpError V) → Resolution × List (S × Reply V)
    settle now p outcome =
        if p.epoch == now
        then (if is_open p.reply
            then (delivered, (p.reply, map_err server outcome) ∷ [])
            else (caller_gone, []))
        else (stale_epoch, [])

    unfoldable pub resolve :
        Correlator S
        → String
        → Result V (DdpError V)
        → Correlator S × Resolution × List (S × Reply V)
    unfolding settle
    resolve c id outcome = elim (get c.pending id) [
      | none ↦ (c, unknown, [])
      | some p ↦
          let (resolution, sent) = settle c.epoch p outcome in
          (record c { pending = remove c.pending id }, resolution, sent)
    ]

    -- The loop of `disconnect` over the abandoned calls.
    unfoldable pub fail_all : Map String (Pending S) → List (S × Reply V)
    unfolding failure
    fail_all [] = []
    fail_all ((id, p) ∷ rest) =
        if is_open p.reply then (p.reply, err (failure id p)) ∷ fail_all rest else fail_all rest

    unfoldable pub disconnect : Correlator S → Correlator S × ℕ × List (S × Reply V)
    disconnect c = (
      record c { epoch = next_epoch c.epoch; pending = empty },
      length c.pending,
      fail_all c.pending,
    )
