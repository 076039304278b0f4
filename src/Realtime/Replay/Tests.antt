-- ===== src/Realtime/Replay/Tests.antt =====
-- The connection is lost again after the first of two subscriptions was replayed.
use rocketsocket.Base.{
  ℕ, String, ◌≡◌, refl, inl, inr, none, some, [], arith, if◌then◌else◌, ◌==◌, ℕ_eq, String_eq,
  Bool-cases, Result, ok, err, Option_eq,
}
use rocketsocket.Realtime.Replay.Restoring.{replay_restores}
use rocketsocket.Map.{get, insert}
use rocketsocket.Realtime.Correlate.{CallError, not_sent}
use rocketsocket.Realtime.Subscription.{
  with_state, pending, Registry, Entry, StreamKey, inactive, new, subscribe, connection_lost,
}
use rocketsocket.Realtime.Replay.{replay}
use rocketsocket.Realtime.Replay.Forgetting.{NeverFresh, replay_forgets}

abbrev general : StreamKey
general = record { stream = "stream-room-messages"; event = "GENERAL" }

abbrev random : StreamKey
random = record { stream = "stream-room-messages"; event = "RANDOM" }

abbrev remembered : Registry ℕ
remembered = connection_lost (subscribe (subscribe new "s0" general []) "s1" random [])

abbrev outcome : String → Result String (CallError ℕ)
outcome id = if id == "s0" then ok "t0" else err not_sent

never_s1 : NeverFresh outcome "s1"
never_s1 old fresh h same = elim (Bool-cases (old == "s0")) [
  | inl first ↦ ground (arith, String_eq.eq_iff "t0" "s1")
  | inr second ↦ ground arith
]

abbrev entry_s1 : Entry ℕ
entry_s1 = record { key = random; params = []; state = inactive }

known_s1 : get remembered.by_id "s1" ≡ some entry_s1
unfolding get insert subscribe connection_lost
known_s1 = refl

replay_forgets_example : get (replay outcome remembered).0.by_id "s1" ≡ none
replay_forgets_example =
    replay_forgets outcome remembered "s1" entry_s1 not_sent never_s1 known_s1 refl

never_s0 : NeverFresh outcome "s0"
never_s0 old fresh h same = elim (Bool-cases (old == "s0")) [
  | inl first ↦ ground (arith, String_eq.eq_iff "t0" "s0")
  | inr second ↦ ground arith
]

only_s0 : (old : String) → outcome old ≡ ok "t0" → old ≡ "s0"
only_s0 old h = ground (arith, String_eq.eq_iff old "s0")

abbrev entry_s0 : Entry ℕ
entry_s0 = record { key = general; params = []; state = inactive }

known_s0 : get remembered.by_id "s0" ≡ some entry_s0
unfolding get insert subscribe connection_lost
known_s0 = refl

unknown_t0 : get remembered.by_id "t0" ≡ none
unfolding get insert subscribe connection_lost
unknown_t0 = refl

replay_restores_example :
    get (replay outcome remembered).0.by_id "t0" ≡ some (with_state pending entry_s0)
replay_restores_example =
    replay_restores outcome remembered "s0" "t0" entry_s0 never_s0 only_s0 unknown_t0 known_s0 refl
