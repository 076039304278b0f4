-- ===== src/Realtime/Connection/Frames.antt =====
-- crates/rocketsocket-realtime/src/connection.rs: what the runner does with a frame of the server.
use rocketsocket.Base.{
  ℕ, String, Option, none, some, List, [], ◌∷◌, ◌++◌, ℕ_eq, String_eq, Result, ok, err, Option_eq,
}
use rocketsocket.Protocol.{DdpError, ServerMessage}
use rocketsocket.Realtime.Backoff.{Rng}
use rocketsocket.Realtime.Liveness
use rocketsocket.Realtime.Session.{Action, handle, unwrap_or}
use rocketsocket.Realtime.Correlate.{resolve}
use rocketsocket.Realtime.Connection.{
  Event, Message, Outcome, Env, Runner, text, close, ping, pong, binary, raw, closed,
}
use rocketsocket.Realtime.Connection.Reasons.{close_reason}
use rocketsocket.Realtime.Connection.State.{apply, emit}

-- The outcome of a call: an absent result is null.
unfoldable pub outcome_of :
    {V : Type 0} → V → Option V → Option (DdpError V) → Result V (DdpError V)
outcome_of null value (some e) = err e
outcome_of null value none = ok (unwrap_or value null)

module _ {r : Rng} {V S : Type 0} where
  -- The last match of `on_text`.
  unfoldable pub publish : Runner r V S → ServerMessage V → Runner r V S
  unfolding emit
  publish x (ServerMessage.connected session) = emit x (Event.connected session)
  publish x (ServerMessage.added c id fields) =
      emit x (Event.frame (ServerMessage.added c id fields))
  publish x (ServerMessage.changed c id fields cleared) =
      emit x (Event.frame (ServerMessage.changed c id fields cleared))
  publish x (ServerMessage.removed c id) = emit x (Event.frame (ServerMessage.removed c id))
  publish x (ServerMessage.added_before c id fields before) =
      emit x (Event.frame (ServerMessage.added_before c id fields before))
  publish x (ServerMessage.moved_before c id before) =
      emit x (Event.frame (ServerMessage.moved_before c id before))
  publish x (ServerMessage.error reason offending) =
      emit x (Event.frame (ServerMessage.error reason offending))
  publish x _ = x

module _ {r : Rng} {V S : Type 0} (env : Env V S) where
  unfoldable pub resolve_method : Runner r V S → String → Result V (DdpError V) → Runner r V S
  resolve_method x id outcome =
      let (methods, resolution, told) = resolve env.is_open x.methods id outcome in
      record x { methods = methods; replies = x.replies ++ told }

  unfoldable pub resolve_sub : Runner r V S → String → Result V (DdpError V) → Runner r V S
  resolve_sub x id outcome =
      let (subs, resolution, told) = resolve env.is_open x.subs id outcome in
      record x { subs = subs; replies = x.replies ++ told }

  -- The loop over the ids of a ready frame.
  unfoldable pub resolve_ready : Runner r V S → List String → Runner r V S
  unfolding resolve_sub
  resolve_ready x [] = x
  resolve_ready x (id ∷ ids) = resolve_ready (resolve_sub x id (ok env.null)) ids

  unfoldable pub correlate : Runner r V S → ServerMessage V → Runner r V S
  unfolding resolve_method resolve_sub resolve_ready outcome_of
  correlate x (ServerMessage.result id value e) = resolve_method x id (outcome_of env.null value e)
  correlate x (ServerMessage.ready ids) = resolve_ready x ids
  correlate x (ServerMessage.nosub id e) = resolve_sub x id (outcome_of env.null none e)
  correlate x _ = x

  -- The loop over the actions of the session.
  unfoldable pub apply_all : Runner r V S → List (Action V) → ℕ → S → Runner r V S
  unfolding apply
  apply_all x [] now channel = x
  apply_all x (action ∷ actions) now channel =
      apply_all (apply env x action now channel) actions now channel

  -- `on_text` of a frame that is decoded.
  unfoldable pub on_message : Runner r V S → ServerMessage V → ℕ → S → Runner r V S
  unfolding apply_all correlate publish
  on_message x message now channel =
      let (session, actions) = handle x.session message in
      let applied = apply_all (record x { session = session }) actions now channel in
      publish (correlate applied message) message

  unfoldable pub on_text : Runner r V S → String → ℕ → S → Runner r V S
  unfolding on_message
  on_text x frame now channel = elim (env.decode frame) [
    | none ↦ x
    | some message ↦ on_message x message now channel
  ]

  -- The match of `on_frame`.
  unfoldable pub on_payload : Runner r V S → Message → ℕ → S → Runner r V S × Option Outcome
  unfolding on_text close_reason
  on_payload x (text frame) now channel = (on_text x frame now channel, none)
  on_payload x (close details) now channel = (x, some (closed (close_reason details)))
  on_payload x ping now channel = (x, none)
  on_payload x pong now channel = (x, none)
  on_payload x binary now channel = (x, none)
  on_payload x raw now channel = (x, none)

  unfoldable pub on_frame : Runner r V S → Message → ℕ → S → Runner r V S × Option Outcome
  unfolding on_payload
  on_frame x frame now channel =
      on_payload (record x { liveness = Liveness.saw_traffic x.liveness now }) frame now channel
