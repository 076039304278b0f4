-- ===== src/Realtime/Connection/Run.antt =====
-- crates/rocketsocket-realtime/src/connection.rs: the outer loop, `Runner::run`, over the attempts to
-- connect.
use rocketsocket.Base.{
  ℕ, ◌-◌, String, Bool, true, false, Option, none, some, List, [], ◌∷◌, ltb, nat_eq, if◌then◌else◌,
  ℕ_eq, String_eq, length, Option_eq,
}
use rocketsocket.Realtime.Backoff
use rocketsocket.Realtime.Backoff.{Rng}
use rocketsocket.Realtime.Connection.{
  ConnectionState, Event, Command, Outcome, Env, Runner, closed, shutdown, fatal,
}
use rocketsocket.Realtime.Connection.State.{
  set_state, emit, handle_command, settle, connection_ended,
}
use rocketsocket.Realtime.Connection.Polls.{Answers}
use rocketsocket.Realtime.Connection.Drive.{begin, drive_loop, conclude}

-- What happens in an attempt: the commands that come while it waits, why the socket does not open,
-- if it does not, and otherwise the answers of the polls, with the times of the start and the end.
pub record Attempt (V S : Type 0) : Type 0 where
  pub commands : List (Option (Command V S))
  pub failure : Option String
  pub started : ℕ
  pub channel : S
  pub inputs : List (Answers V S × S)
  pub ended : ℕ

-- Whether `run` goes on after an attempt: it makes the next, it is over, or its socket is in use.
pub data Course : Type 0 where
  retries finished in_use : Course

unfoldable pub course_of : Outcome → Course
course_of (closed reason) = retries
course_of shutdown = finished
course_of (fatal f) = finished

unfoldable pub is_final : ConnectionState → Bool
is_final ConnectionState.fatal = true
is_final ConnectionState.closed = true
is_final _ = false

module _ {r : Rng} {V S : Type 0} (env : Env V S) where
  -- The loop of `idle`, over the commands that come before the delay is over; `none` where every
  -- handle is dropped. It reads no command while the outbox is full.
  unfoldable pub idle : Runner r V S → List (Option (Command V S)) → Runner r V S
  unfolding handle_command
  idle x [] = x
  idle x (arrival ∷ rest) =
      if ltb (length x.app) x.config.outbox_capacity
      then elim arrival [
        | none ↦ record x { shutdown = true }
        | some c ↦
            let handled = handle_command env x c in
            let later = idle handled rest in if handled.shutdown then handled else later
      ]
      else x

  -- The start of the loop's body: the delay before the attempt.
  unfoldable pub wait : Runner r V S → List (Option (Command V S)) → Runner r V S
  unfolding set_state idle
  wait x commands =
      let (delay, backoff) = Backoff.next_delay x.backoff in
      let advanced = record x { backoff = backoff } in
      if nat_eq delay 0
      then advanced
      else idle (set_state advanced ConnectionState.disconnected) commands

  -- The rest of the body. The outer `none` is a panic.
  unfoldable pub connect_once : Runner r V S → Attempt V S → Option (Runner r V S × Course)
  unfolding set_state emit connection_ended begin drive_loop conclude course_of
  connect_once x a =
      let announced =
        emit (set_state x ConnectionState.connecting) (Event.connecting (x.backoff.attempt - 1)) in
      elim a.failure [
        | some reason ↦ some (connection_ended env announced reason a.ended, retries)
        | none ↦ elim (begin env announced a.started a.channel) [
          | none ↦ none
          | some opened ↦ elim (drive_loop env opened a.inputs) [
            | none ↦ none
            | some (driven, none) ↦ some (driven, in_use)
            | some (driven, some o) ↦ some (conclude env driven o a.ended, course_of o)
          ]
        ]
      ]

  -- What follows the loop.
  unfoldable pub finish : Runner r V S → Runner r V S
  unfolding set_state settle is_final
  finish x = settle env (if is_final x.state then x else set_state x ConnectionState.closed)

  -- The loop, over the attempts.
  unfoldable pub run : Runner r V S → List (Attempt V S) → Option (Runner r V S × Course)
  unfolding wait connect_once finish
  run x [] = if x.shutdown then some (finish x, finished) else some (x, in_use)
  run x (a ∷ attempts) =
      let waited = wait x a.commands in
      if x.shutdown
      then some (finish x, finished)
      else if waited.shutdown
      then some (finish waited, finished)
      else elim (connect_once waited a) [
        | none ↦ none
        | some (y, retries) ↦ run y attempts
        | some (y, finished) ↦ some (finish y, finished)
        | some (y, in_use) ↦ some (y, in_use)
      ]
