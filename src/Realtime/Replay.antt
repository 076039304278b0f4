-- ===== src/Realtime/Replay.antt =====
-- crates/rocketsocket-realtime/src/client.rs: the replay of the remembered subscriptions on a new
-- connection. `answer` is the outcome of the request for the subscription of each remembered id,
-- with the id under which the server has it now. The replay runs whole: other users of the
-- registry that come between its steps are not modelled.
pub mod Forgetting
pub mod Restoring
mod Tests
use rocketsocket.Base.{
  ℕ, zero, suc, ◌+◌, ◌-◌, ◌*◌, ◌/◌, ◌%◌, ◌^◌, ◌≤◌, ◌<◌, String, ◌≡◌, refl, sym, ap, ◌∙◌, ◌≢◌, ◌↔◌,
  ◌⊎◌, inl, inr, Bool, true, false, not, ◌&&◌, ◌||◌, Option, none, some, List, [], ◌∷◌, ◌++◌, arith,
  ltb, leb, nat_eq, if◌then◌else◌, Eq, ◌==◌, ℕ_eq, String_eq, Bool-cases, if-keeps, elem-append,
  elem-retain, and_then, Option-cases, is_some, is_some_and, Result, ok, err, map_err, length, All,
  retain, elem, option_eq, option_eq_iff, Option_eq,
}
use rocketsocket.Realtime.Correlate.{CallError}
use rocketsocket.Realtime.Subscription.{Registry, StreamKey, to_replay, rekey, forget}

module _ {V : Type 0} (answer : String → Result String (CallError V)) where
  -- The loop, with the number of the subscriptions that it restores.
  unfoldable pub replay_each : Registry V → List (String × StreamKey × List V) → Registry V × ℕ
  replay_each r [] = (r, 0)
  replay_each r ((old_id, key, params) ∷ rest) = elim (answer old_id) [
    | ok new_id ↦
        let (replayed, restored) = replay_each (rekey r old_id new_id).0 rest in
        (replayed, suc restored)
    | err e ↦ replay_each (forget r old_id).0 rest
  ]

  unfoldable pub replay : Registry V → Registry V × ℕ
  unfolding replay_each
  replay r = replay_each r (to_replay r)
