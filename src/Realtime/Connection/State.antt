-- ===== src/Realtime/Connection/State.antt =====
-- crates/rocketsocket-realtime/src/connection.rs: what the runner does on its own state.
use rocketsocket.Base.{
  ℕ, ◌-◌, String, Bool, true, false, Option, none, some, List, [], ◌∷◌, ◌++◌, leb, if◌then◌else◌,
  ℕ_eq, String_eq, is_some_and, Option_eq,
}
use rocketsocket.Protocol.{ClientMessage, ddp_version}
use rocketsocket.Realtime.Backoff
use rocketsocket.Realtime.Backoff.{Rng}
use rocketsocket.Realtime.Liveness
use rocketsocket.Realtime.Session
use rocketsocket.Realtime.Session.{
  Phase, Action, send, login, resubscribe, fatal, protocol_violation, expect_login, socket_gone,
}
use rocketsocket.Realtime.Correlate
use rocketsocket.Realtime.Correlate.{Correlator, Reply, register, mark_sent, cancel, disconnect}
use rocketsocket.Realtime.Connection.{
  Config, ConnectionState, Event, Command, Mark, method, sub, Env, Runner, call, subscribe,
  unsubscribe, shutdown,
}

module _ {r : Rng} {V S : Type 0} where
  -- `Runner::new`, with the seed of its generator; `none` where the thresholds are refused.
  unfoldable pub new : Config → r.State → ℕ → Option (Runner r V S)
  new config rng now = elim (Liveness.with_thresholds config.ping_after config.dead_after now) [
    | none ↦ none
    | some liveness ↦ some (record {
      config = config;
      session = Session.new ddp_version;
      methods = Correlate.new "m";
      subs = Correlate.new "s";
      liveness = liveness;
      backoff = Backoff.with_limits config.backoff_base config.backoff_cap rng;
      events = [];
      replies = [];
      acks = [];
      state = ConnectionState.disconnected;
      socket = none;
      priority = [];
      app = [];
      unflushed = [];
      ready_at = none;
      needs_flush = false;
      timer = now;
      handshake_deadline = none;
      login_reply = none;
      fatal = none;
      shutdown = false;
      turn = false;
    })
  ]

  unfoldable pub push_priority : Runner r V S → ClientMessage V → Option Mark → Runner r V S
  push_priority x frame mark = record x {
    priority = x.priority ++ (record { frame = frame; mark = mark } ∷ []);
  }

  unfoldable pub push_app : Runner r V S → ClientMessage V → Option Mark → Runner r V S
  push_app x frame mark = record x { app = x.app ++ (record { frame = frame; mark = mark } ∷ []) }

  unfoldable pub set_state : Runner r V S → ConnectionState → Runner r V S
  set_state x state = record x { state = state }

  unfoldable pub emit : Runner r V S → Event V → Runner r V S
  emit x event = record x { events = x.events ++ (event ∷ []) }

-- The match of `sync_state`.
unfoldable pub state_of : Phase → ConnectionState
state_of Phase.disconnected = ConnectionState.disconnected
state_of Phase.handshaking = ConnectionState.handshaking
state_of Phase.authenticating = ConnectionState.authenticating
state_of Phase.ready = ConnectionState.ready
state_of Phase.fatally_closed = ConnectionState.fatal

-- The loop that marks the calls whose frames are on the wire, in the two tables.
unfoldable pub mark_all :
    {S : Type 0} → List Mark → Correlator S × Correlator S → Correlator S × Correlator S
mark_all [] tables = tables
mark_all (method id ∷ marks) (methods, subs) = mark_all marks (mark_sent methods id, subs)
mark_all (sub id ∷ marks) (methods, subs) = mark_all marks (methods, mark_sent subs id)

module _ {r : Rng} {V S : Type 0} where
  unfoldable pub sync_state : Runner r V S → Runner r V S
  unfolding set_state state_of
  sync_state x = set_state x (state_of x.session.phase)

  module _ (env : Env V S) where
    -- `channel` is the sender of the channel that a login opens.
    unfoldable pub apply : Runner r V S → Action V → ℕ → S → Runner r V S
    unfolding push_priority emit sync_state
    apply x (send frame) now channel = push_priority x frame none
    apply x login now channel =
        let (methods, id) = register x.methods channel in
        let expecting = record x {
          methods = methods;
          session = expect_login x.session id;
          login_reply = some channel;
        } in
        push_priority expecting
          (ClientMessage.method id "login" (env.credential_params x.config.credential))
          (some (method id))
    apply x resubscribe now channel =
        let epoch = x.methods.epoch in
        let settled = record x { handshake_deadline = none; ready_at = some now } in
        emit (emit (sync_state settled) (Event.ready epoch)) (Event.resubscribe epoch)
    apply x (fatal f) now channel = record x { fatal = some f }
    apply x (protocol_violation msg) now channel = x

    unfoldable pub handle_command : Runner r V S → Command V S → Runner r V S
    unfolding push_app
    handle_command x (call name params ack reply) =
        let (methods, id) = register x.methods reply in
        if env.is_open ack
        then push_app (record x { methods = methods; acks = x.acks ++ ((ack, id) ∷ []) })
            (ClientMessage.method id name params) (some (method id))
        else record x { methods = (cancel methods id).0 }
    handle_command x (subscribe name params ack reply) =
        let (subs, id) = register x.subs reply in
        if env.is_open ack
        then push_app (record x { subs = subs; acks = x.acks ++ ((ack, id) ∷ []) })
            (ClientMessage.sub id name params) (some (sub id))
        else record x { subs = (cancel subs id).0 }
    handle_command x (unsubscribe id) = push_app x (ClientMessage.unsub id) none
    handle_command x shutdown = record x { shutdown = true }

    unfoldable pub settle : Runner r V S → Runner r V S
    unfolding mark_all
    settle x =
        let (methods, subs) = mark_all x.unflushed (x.methods, x.subs) in
        let (methods', count, told) = disconnect {V = V} env.is_open methods in
        let (subs', count', told') = disconnect {V = V} env.is_open subs in
        record x {
          priority = [];
          app = [];
          unflushed = [];
          needs_flush = false;
          login_reply = none;
          handshake_deadline = none;
          methods = methods';
          subs = subs';
          replies = x.replies ++ (told ++ told');
        }

    -- Whether the session had been ready for as long as `stable_after`.
    unfoldable pub was_stable : Runner r V S → ℕ → Bool
    was_stable x now =
        is_some_and x.ready_at (λ ready_at. leb x.config.stable_after (now - ready_at))

    -- `Runner::disconnected`.
    unfoldable pub connection_ended : Runner r V S → String → ℕ → Runner r V S
    unfolding settle set_state emit was_stable
    connection_ended x reason now =
        let backoff = if was_stable x now then Backoff.reset x.backoff else x.backoff in
        let ended = record x {
          ready_at = none;
          backoff = backoff;
          session = socket_gone x.session;
        } in
        emit (set_state (settle ended) ConnectionState.disconnected) (Event.disconnected reason)
