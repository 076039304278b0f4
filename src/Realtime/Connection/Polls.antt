-- ===== src/Realtime/Connection/Polls.antt =====
-- crates/rocketsocket-realtime/src/connection.rs: what the socket loop waits for. The answers of the
-- socket, of the command channel and of the clock are an argument.
use rocketsocket.Base.{
  ℕ, String, Bool, true, false, not, Option, none, some, List, [], ◌∷◌, ◌++◌, ltb, leb,
  if◌then◌else◌, ℕ_eq, String_eq, Result, ok, err, length, Option_eq,
}
use rocketsocket.Realtime.Backoff.{Rng}
use rocketsocket.Realtime.Session.{Phase, ready}
use rocketsocket.Realtime.Connection.{
  Command, Mark, Outbound, Message, Step, Runner, frame, eof, failed, command, handles_dropped,
  deadline,
}
use rocketsocket.Realtime.Connection.State.{mark_all}

-- What the sink says when it is offered a frame: it takes it, `start_send` fails, or `poll_ready`.
pub data Offer : Type 0 where
  accepted : Offer
  refused broken : (error : String) → Offer

pub data Flush : Type 0 where
  flushed blocked : Flush
  unflushable : (error : String) → Flush

-- The answers in one poll. After the last offer the sink is not ready. The stream and the channel
-- have nothing, or an item, or `some none` at their end.
pub record Answers (V S : Type 0) : Type 0 where
  pub offers : List Offer
  pub flush : Flush
  pub read : Option (Option (Result Message String))
  pub commands : Option (Option (Command V S))
  pub now : ℕ

-- `poll_read` of what the stream answers.
unfoldable pub poll_read :
    {V S : Type 0} → Option (Option (Result Message String)) → Option (Step V S)
poll_read none = none
poll_read (some none) = some eof
poll_read (some (some (ok message))) = some (frame message)
poll_read (some (some (err error))) = some (failed error)

-- `poll_commands` of what the channel answers.
unfoldable pub poll_commands : {V S : Type 0} → Option (Option (Command V S)) → Option (Step V S)
poll_commands none = none
poll_commands (some none) = some handles_dropped
poll_commands (some (some c)) = some (command c)

unfoldable pub is_ready : Phase → Bool
is_ready ready = true
is_ready _ = false

-- The next frame to write, and the queues without it.
unfoldable pub pop :
    {V : Type 0}
    → Bool
    → List (Outbound V)
    → List (Outbound V)
    → Option (Outbound V × List (Outbound V) × List (Outbound V))
pop w (o ∷ priority) app = some (o, priority, app)
pop w [] [] = none
pop w [] (o ∷ app) = if w then some (o, [], app) else none

abbrev pub mark_list : Option Mark → List Mark
mark_list none = []
mark_list (some mark) = mark ∷ []

-- The first poll that is ready.
abbrev pub or_else : {V S : Type 0} → Option (Step V S) → Option (Step V S) → Option (Step V S)
or_else (some s) t = some s
or_else none t = t

module _ {r : Rng} {V S : Type 0} where
  -- The frames that the socket has accepted.
  unfoldable pub handed : Runner r V S → List (Outbound V)
  handed x = elim x.socket [ none ↦ [] | some frames ↦ frames ]

  abbrev pub writable : Runner r V S → Bool
  writable x = is_ready x.session.phase

  unfoldable pub hand_over : Runner r V S → Outbound V → Runner r V S
  unfolding handed
  hand_over x o = record x {
    socket = some (handed x ++ (o ∷ []));
    unflushed = x.unflushed ++ mark_list o.mark;
    needs_flush = true;
  }

  -- The write loop, and the error that ends it.
  unfoldable pub write : Runner r V S → List Offer → Runner r V S × Option String
  unfolding pop hand_over
  write x [] = (x, none)
  write x (offer ∷ offers) = elim (pop (writable x) x.priority x.app) [
    | none ↦ (x, none)
    | some (o, priority, app) ↦
        let popped = record x { priority = priority; app = app } in
        elim offer [
          | accepted ↦ write (hand_over popped o) offers
          | refused error ↦ (popped, some error)
          | broken error ↦ (x, some error)
        ]
  ]

  unfoldable pub flush_all : Runner r V S → Flush → Runner r V S × Option String
  unfolding mark_all
  flush_all x answer =
      if x.needs_flush
      then elim answer [
        | flushed ↦
            let (methods, subs) = mark_all x.unflushed (x.methods, x.subs) in
            (record x { needs_flush = false; unflushed = []; methods = methods; subs = subs }, none)
        | blocked ↦ (x, none)
        | unflushable error ↦ (x, some error)
      ]
      else (x, none)

  -- The reads, the commands and the timer.
  unfoldable pub poll_sources : Runner r V S → Answers V S → Runner r V S × Option (Step V S)
  unfolding poll_read poll_commands
  poll_sources x a =
      let accepting = ltb (length x.app) x.config.outbox_capacity in
      let commands = if accepting then poll_commands a.commands else none in
      let turn = not x.turn in
      let traffic =
        if turn then or_else (poll_read a.read) commands else or_else commands (poll_read a.read) in
      let expired = if leb x.timer a.now then some deadline else none in
      (record x { turn = turn }, or_else traffic expired)

  -- The body of `poll_step`, of a runner with a socket. `none` is `Pending`.
  unfoldable pub poll_socket : Runner r V S → Answers V S → Runner r V S × Option (Step V S)
  unfolding write flush_all poll_sources
  poll_socket x a =
      let (written, error) = write x a.offers in
      elim error [
        | some e ↦ (written, some (failed e))
        | none ↦
            let (drained, error') = flush_all written a.flush in
            elim error' [ some e ↦ (drained, some (failed e)) | none ↦ poll_sources drained a ]
      ]

  -- The outer `none` is the panic without a socket.
  unfoldable pub poll_step : Runner r V S → Answers V S → Option (Runner r V S × Option (Step V S))
  unfolding poll_socket
  poll_step x a = elim x.socket [ none ↦ none | some frames ↦ some (poll_socket x a) ]
