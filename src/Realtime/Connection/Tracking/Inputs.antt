-- ===== src/Realtime/Connection/Tracking/Inputs.antt =====
-- A command, and an action of the session, keep the tracking.
use rocketsocket.Base.{
  inr, [], ◌∷◌, inl, ◌++◌, Bool-cases, ℕ, suc, none, some, ℕ_eq, String_eq, Option_eq,
}
use rocketsocket.Realtime.Backoff.{Rng}
use rocketsocket.Realtime.Session.{
  expect_login, Action, send, login, resubscribe, fatal, protocol_violation,
}
use rocketsocket.Realtime.Correlate.{register}
use rocketsocket.Realtime.Correlate.Wire.{register-Tracks, cancel-Tracks}
use rocketsocket.Realtime.Connection.{
  Command, method, sub, Env, Runner, call, subscribe, unsubscribe, shutdown,
}
use rocketsocket.Realtime.Connection.State.{apply, handle_command, sync_state, emit, set_state}
use rocketsocket.Realtime.Connection.Polls.{handed}
use rocketsocket.Realtime.Connection.Tracking.{
  Lane, method_lane, sub_lane, TracksLane, weaken_lane, push_app-TracksLane,
  push_priority-TracksLane,
}

module _ {r : Rng} {V S : Type 0} (env : Env V S) where
  -- The runner that has registered a call, or a subscription, and told its id.
  abbrev called : Runner r V S → S → S → Runner r V S
  called x ack reply =
      let (methods, id) = register x.methods reply in
      record x { methods = methods; acks = x.acks ++ ((ack, id) ∷ []) }

  abbrev subscribed : Runner r V S → S → S → Runner r V S
  subscribed x ack reply =
      let (subs, id) = register x.subs reply in
      record x { subs = subs; acks = x.acks ++ ((ack, id) ∷ []) }

  pub handle_command-TracksLane :
      (lane : Lane) (x : Runner r V S) (c : Command V S) (room : ℕ)
      → TracksLane lane x (suc room)
      → TracksLane lane (handle_command env x c) room
  unfolding handle_command handed
  handle_command-TracksLane method_lane x (call name params ack reply) room t =
      let (t', issued) = register-Tracks x.methods _ _ _ _ room t reply in
      elim (Bool-cases (env.is_open ack)) [
        | inl e ↦ rw e (
            push_app-TracksLane method_lane (called x ack reply) _
              (some (method (register x.methods reply).1)) room (issued, tt) t')
        | inr e ↦ rw e (cancel-Tracks _ _ _ _ _ room _ t')
      ]
  handle_command-TracksLane sub_lane x (call name params ack reply) room t =
      let t' = weaken_lane sub_lane x room t in
      elim (Bool-cases (env.is_open ack)) [
        | inl e ↦ rw e (
            push_app-TracksLane sub_lane (called x ack reply) _
              (some (method (register x.methods reply).1)) room tt t')
        | inr e ↦ rw e t'
      ]
  handle_command-TracksLane method_lane x (subscribe name params ack reply) room t =
      let t' = weaken_lane method_lane x room t in
      elim (Bool-cases (env.is_open ack)) [
        | inl e ↦ rw e (
            push_app-TracksLane method_lane (subscribed x ack reply) _
              (some (sub (register x.subs reply).1)) room tt t')
        | inr e ↦ rw e t'
      ]
  handle_command-TracksLane sub_lane x (subscribe name params ack reply) room t =
      let (t', issued) = register-Tracks x.subs _ _ _ _ room t reply in
      elim (Bool-cases (env.is_open ack)) [
        | inl e ↦ rw e (
            push_app-TracksLane sub_lane (subscribed x ack reply) _
              (some (sub (register x.subs reply).1)) room (issued, tt) t')
        | inr e ↦ rw e (cancel-Tracks _ _ _ _ _ room _ t')
      ]
  handle_command-TracksLane lane x (unsubscribe id) room t =
      push_app-TracksLane lane x _ none room tt (weaken_lane lane x room t)
  handle_command-TracksLane lane x shutdown room t = weaken_lane lane x room t

  -- The runner that has registered its login call.
  abbrev logging_in : Runner r V S → S → Runner r V S
  logging_in x channel = record x {
    methods = (register x.methods channel).0;
    session = expect_login x.session (register x.methods channel).1;
    login_reply = some channel;
  }

  pub apply-TracksLane :
      (lane : Lane) (x : Runner r V S) (action : Action V) (now : ℕ) (channel : S) (room : ℕ)
      → TracksLane lane x (suc room)
      → TracksLane lane (apply env x action now channel) room
  unfolding apply handed sync_state emit set_state
  apply-TracksLane lane x (send frame) now channel room t =
      push_priority-TracksLane lane x frame none room tt (weaken_lane lane x room t)
  apply-TracksLane method_lane x login now channel room t =
      let (t', issued) = register-Tracks x.methods _ _ _ _ room t channel in
      push_priority-TracksLane method_lane (logging_in x channel) _
        (some (method (register x.methods channel).1)) room (issued, tt) t'
  apply-TracksLane sub_lane x login now channel room t =
      push_priority-TracksLane sub_lane (logging_in x channel) _
        (some (method (register x.methods channel).1)) room tt (weaken_lane sub_lane x room t)
  apply-TracksLane lane x resubscribe now channel room t = weaken_lane lane x room t
  apply-TracksLane lane x (fatal f) now channel room t = weaken_lane lane x room t
  apply-TracksLane lane x (protocol_violation msg) now channel room t = weaken_lane lane x room t
