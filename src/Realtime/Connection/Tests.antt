-- ===== src/Realtime/Connection/Tests.antt =====
-- A connection that is lost while its login call is unanswered. The login frame was handed to the
-- socket, and not flushed.
use mathlib.Core.List.{Mem}
use rocketsocket.Base.{
  ℕ, ◌-◌, ◌<◌, ◌≡◌, refl, ◌↔◌, ◌⊎◌, true, false, none, some, List, [], ◌∷◌, arith, ℕ_eq, String_eq,
  Option_eq,
}
use rocketsocket.Base.Texts.{to_decimal}
use rocketsocket.Map.{get, insert}
use rocketsocket.Protocol.{is_malformed}
use rocketsocket.Realtime.Backoff
use rocketsocket.Realtime.Backoff.{Rng, Backoff}
use rocketsocket.Realtime.Liveness
use rocketsocket.Realtime.Session
use rocketsocket.Realtime.Session.{Session, Phase}
use rocketsocket.Realtime.Correlate
use rocketsocket.Realtime.Correlate.{Correlator, Pending, Reply, u64_mod, abandoned}
use rocketsocket.Realtime.Connection.{Command, Outbound, Outcome}
use rocketsocket.Realtime.Connection.State
use rocketsocket.Realtime.Connection.Frames
use rocketsocket.Realtime.Connection.Polls.{
  accepted, refused, is_ready, poll_read, poll_commands, poll_sources, write,
}
use rocketsocket.Realtime.Connection.Drive
use rocketsocket.Realtime.Connection.Drive.{begin, drive_loop, conclude, turn, on_deadline}
use rocketsocket.Realtime.Connection.Finished.{Over, run-Over}
use rocketsocket.Realtime.Connection.Run.{Attempt, run, finish, finished}
use rocketsocket.Realtime.Connection.Tracking.{method_lane}
use rocketsocket.Realtime.Connection.Tracking.Endings.{judged}
use rocketsocket.Realtime.Connection.Tracking.Cycles.{
  new-TracksLane, begin-TracksLane, connection_told,
}
use rocketsocket.Realtime.Connection.Writing.{Ordered, write-Ordered}
use rocketsocket.Realtime.Connection.Waiting.{late, poll_sources_fair, on_deadline_closes}
use rocketsocket.Realtime.Connection.Fixtures.{
  world, config, created, begun, inputs, login_call, driven, lost, turned, queued, both, dropping,
  shut,
}

creates : State.new config 5 100 ≡ some created
unfolding State.new Liveness.with_thresholds Session.new Correlate.new Backoff.with_limits
creates = refl

begins : begin world created 100 9 ≡ some begun
unfolding begin Liveness.with_thresholds Session.connect State.apply State.push_priority
    State.sync_state State.set_state State.state_of Drive.arm_timer Liveness.next_deadline
    Liveness.idle_for
begins = refl

drives : drive_loop world begun inputs ≡ some (driven, some lost)
unfolding drive_loop Session.handle Session.dispatch is_malformed State.apply Correlate.register
    insert to_decimal Session.expect_login State.push_priority State.emit State.state_of
    Session.violation_tag Liveness.saw_traffic Liveness.next_deadline Liveness.idle_for
    Frames.apply_all
drives = refl

found : get driven.methods.pending "m0" ≡ some login_call
unfolding get
found = refl

connection_told_example :
    Mem (judged world method_lane driven "m0" 7) (conclude world driven lost 103).replies
connection_told_example =
    connection_told world method_lane inputs begun driven lost 103 10 "m0" login_call
      (begin-TracksLane world method_lane created begun 100 9 12 refl
        (new-TracksLane method_lane config 5 100 12 created (omega arith) creates).0 begins)
      drives found refl

write-Ordered_example :
    let (y, error) = write queued (accepted ∷ refused "io" ∷ []) in
    (taken : List (Outbound ℕ)) × (lost : List (Outbound ℕ)) × Ordered queued y error taken lost
write-Ordered_example = write-Ordered queued (accepted ∷ refused "io" ∷ [])

poll_sources_fair_example :
    (((poll_sources created both).1 ≡ poll_read both.read)
      × ((poll_sources turned both).1 ≡ poll_commands both.commands))
    ⊎ (((poll_sources created both).1 ≡ poll_commands both.commands)
        × ((poll_sources turned both).1 ≡ poll_read both.read))
unfolding poll_sources
poll_sources_fair_example =
    poll_sources_fair created turned both both none none (some Command.shutdown)
      (some Command.shutdown) refl refl refl refl refl (omega arith) (omega arith)

on_deadline_closes_example :
    let (y, outcome) = on_deadline world begun 120 in
    ((outcome ≡ none) ↔ ((late begun 120 ≡ false) × (120 - 100 < 45)))
    × (is_ready begun.session.phase ≡ true → y.handshake_deadline ≡ none)
on_deadline_closes_example = on_deadline_closes world begun 120

-- An attempt whose socket does not open.
abbrev failing : Attempt ℕ ℕ
failing = record {
  commands = [];
  failure = some "refused";
  started = 104;
  channel = 9;
  inputs = [];
  ended = 105;
}

runs :
    run world created (dropping ∷ [])
    ≡ some (finish world (conclude world shut Outcome.shutdown 105), finished)
unfolding run Backoff.next_delay begin Liveness.with_thresholds Session.connect State.apply
    State.push_priority State.emit State.state_of Drive.arm_timer Liveness.next_deadline
    Liveness.idle_for
runs = refl

run-Over_example : Over (finish world (conclude world shut Outcome.shutdown 105))
run-Over_example =
    run-Over world created (finish world (conclude world shut Outcome.shutdown 105)) (dropping ∷ [])
      runs
