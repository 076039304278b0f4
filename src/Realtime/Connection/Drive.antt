-- ===== src/Realtime/Connection/Drive.antt =====
-- crates/rocketsocket-realtime/src/connection.rs: the socket loop, `Runner::drive`, and what `run`
-- makes of its end.
use rocketsocket.Base.{
  min, ℕ, ◌+◌, Option, none, some, List, [], ◌∷◌, leb, if◌then◌else◌, ℕ_eq, String_eq, is_some_and,
  Option_eq,
}
use rocketsocket.Protocol.{ClientMessage}
use rocketsocket.Realtime.Backoff.{Rng}
use rocketsocket.Realtime.Liveness
use rocketsocket.Realtime.Liveness.{healthy, send_ping, dead}
use rocketsocket.Realtime.Session
use rocketsocket.Realtime.Session.{Session, Fatal}
use rocketsocket.Realtime.Connection.{
  ConnectionState, Event, Step, Outcome, Env, Runner, frame, eof, failed, command, handles_dropped,
  deadline, closed, shutdown, fatal,
}
use rocketsocket.Realtime.Connection.Reasons.{handshake_reason, silence_reason, socket_reason}
use rocketsocket.Realtime.Connection.State.{
  push_priority, sync_state, set_state, emit, apply, handle_command, settle, connection_ended,
}
use rocketsocket.Realtime.Connection.Frames.{on_frame}
use rocketsocket.Realtime.Connection.Polls.{Answers, poll_step, is_ready}

module _ {r : Rng} {V S : Type 0} where
  unfoldable pub arm_timer : Runner r V S → ℕ → Runner r V S
  arm_timer x now =
      let liveness = Liveness.next_deadline x.liveness now in
      record x {
        timer = elim x.handshake_deadline [
          | none ↦ liveness
          | some handshake ↦ min liveness handshake
        ];
      }

  -- The first test of `on_deadline`.
  unfoldable pub clear_handshake : Runner r V S → Runner r V S
  unfolding is_ready
  clear_handshake x = if is_ready x.session.phase then record x { handshake_deadline = none } else x

  -- What follows the match: a terminal failure comes before a shutdown, and that before the
  -- outcome of the step.
  unfoldable pub decide : Runner r V S → Option Outcome → ℕ → Runner r V S × Option Outcome
  unfolding arm_timer
  decide x outcome now = elim x.fatal [
    | some f ↦ (record x { fatal = none }, some (fatal f))
    | none ↦
        if x.shutdown
        then (x, some shutdown)
        else elim outcome [ none ↦ (arm_timer x now, none) | some o ↦ (x, some o) ]
  ]

  module _ (env : Env V S) where
    -- The match on the liveness.
    unfoldable pub check_liveness : Runner r V S → ℕ → Runner r V S × Option Outcome
    unfolding push_priority silence_reason
    check_liveness x now =
        let (verdict, liveness) = Liveness.poll x.liveness now in
        let polled = record x { liveness = liveness } in
        elim verdict [
          | healthy ↦ (polled, none)
          | send_ping ↦ (push_priority polled (ClientMessage.ping none) none, none)
          | dead ↦ (polled, some (closed (silence_reason (env.debug_duration x.config.dead_after))))
        ]

    unfoldable pub on_deadline : Runner r V S → ℕ → Runner r V S × Option Outcome
    unfolding clear_handshake check_liveness handshake_reason
    on_deadline x now =
        let cleared = clear_handshake x in
        if is_some_and cleared.handshake_deadline (λ limit. leb limit now)
        then (
          cleared,
          some (closed (handshake_reason (env.debug_duration x.config.handshake_timeout))),
        )
        else check_liveness cleared now

    -- The match on the step.
    unfoldable pub perform : Runner r V S → Step V S → ℕ → S → Runner r V S × Option Outcome
    unfolding on_frame handle_command on_deadline socket_reason
    perform x (frame message) now channel = on_frame env x message now channel
    perform x eof now channel = (x, some (closed "the server closed the socket"))
    perform x (failed error) now channel = (x, some (closed (socket_reason error)))
    perform x (command c) now channel = (handle_command env x c, none)
    perform x handles_dropped now channel = (x, some shutdown)
    perform x deadline now channel = on_deadline x now

    -- The body of the loop, after the poll.
    unfoldable pub turn : Runner r V S → Step V S → ℕ → S → Runner r V S × Option Outcome
    unfolding perform decide sync_state
    turn x step now channel =
        let (performed, outcome) = perform x step now channel in
        decide (sync_state performed) outcome now

    -- What precedes the loop; `none` where the thresholds are refused.
    unfoldable pub begin : Runner r V S → ℕ → S → Option (Runner r V S)
    unfolding apply sync_state arm_timer
    begin x now channel =
        elim (Liveness.with_thresholds x.config.ping_after x.config.dead_after now) [
          | none ↦ none
          | some liveness ↦
              let (session, action) = Session.connect {V = V} x.session in
              let opened = record x {
                socket = some [];
                liveness = liveness;
                handshake_deadline = some (now + x.config.handshake_timeout);
                session = session;
              } in
              some (arm_timer (sync_state (apply env opened action now channel)) now)
        ]

    -- The loop, over the answers of successive polls. The outer `none` is the panic of a poll, and
    -- an outcome `none` is that the loop still runs.
    unfoldable pub drive_loop :
        Runner r V S → List (Answers V S × S) → Option (Runner r V S × Option Outcome)
    unfolding poll_step turn
    drive_loop x [] = some (x, none)
    drive_loop x ((a, channel) ∷ rest) = elim (poll_step x a) [
      | none ↦ none
      | some (polled, none) ↦ drive_loop polled rest
      | some (polled, some step) ↦
          let (turned, outcome) = turn polled step a.now channel in
          elim outcome [ none ↦ drive_loop turned rest | some o ↦ some (turned, some o) ]
    ]

    -- The match of `run` on the outcome. A polite close drops the socket.
    unfoldable pub conclude : Runner r V S → Outcome → ℕ → Runner r V S
    unfolding connection_ended settle set_state emit
    conclude x (closed reason) now = connection_ended env (record x { socket = none }) reason now
    conclude x shutdown now =
        let settled = settle env (record x { socket = none }) in
        set_state (record settled { session = Session.socket_gone settled.session })
          ConnectionState.closed
    conclude x (fatal f) now =
        emit (set_state (settle env (record x { socket = none })) ConnectionState.fatal)
          (Event.fatal f)
