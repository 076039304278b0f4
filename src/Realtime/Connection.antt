-- ===== src/Realtime/Connection.antt =====
-- crates/rocketsocket-realtime/src/connection.rs: the data of the runner that owns a connection.
-- `V` is `serde_json::Value` and `S` the sending half of a `tokio::sync::oneshot` channel. Times
-- are nanoseconds of the clock that the timers use.
pub mod Reasons
pub mod State
pub mod Frames
pub mod Polls
pub mod Drive
pub mod Run
pub mod Tracking
pub mod Writing
pub mod Waiting
pub mod Published
pub mod Queued
pub mod Finished
mod Fixtures
mod Tests
use rocketsocket.Base.{
  max, ℕ, zero, suc, ◌+◌, ◌-◌, ◌*◌, ◌/◌, ◌%◌, ◌^◌, ◌≤◌, ◌<◌, String, ◌≡◌, refl, sym, ap, ◌∙◌, ◌≢◌,
  ◌↔◌, ◌⊎◌, inl, inr, Bool, true, false, not, ◌&&◌, ◌||◌, Option, none, some, List, [], ◌∷◌, ◌++◌,
  arith, ltb, leb, nat_eq, if◌then◌else◌, Eq, ◌==◌, ℕ_eq, String_eq, Bool-cases, if-keeps,
  Result-cases, elem-append, elem-retain, and_then, Option-cases, is_some, is_some_and, Result, ok,
  err, map_err, length, All, retain, elem, option_eq, option_eq_iff, Option_eq,
}
use rocketsocket.Protocol.{ClientMessage, ServerMessage}
use rocketsocket.Realtime.Backoff.{Rng, Backoff, default_base, default_cap, nanos_per_sec}
use rocketsocket.Realtime.Liveness.{LivenessPolicy, default_ping_after, default_dead_after}
use rocketsocket.Realtime.Session.{Session, Fatal}
use rocketsocket.Realtime.Correlate.{Epoch, Correlator, Reply}

pub data Credential : Type 0 where
  resume : (token : String) → Credential
  password : (user password : String) → Credential

pub record Config : Type 0 where
  pub url : String
  pub credential : Credential
  pub connect_timeout : ℕ
  pub handshake_timeout : ℕ
  pub ping_after : ℕ
  pub dead_after : ℕ
  pub command_capacity : ℕ
  pub outbox_capacity : ℕ
  pub event_capacity : ℕ
  pub backoff_base : ℕ
  pub backoff_cap : ℕ
  pub stable_after : ℕ

-- `Config::new`.
unfoldable pub default_config : String → Credential → Config
default_config url credential = record {
  url = url;
  credential = credential;
  connect_timeout = 15 * nanos_per_sec;
  handshake_timeout = 20 * nanos_per_sec;
  ping_after = default_ping_after;
  dead_after = default_dead_after;
  command_capacity = 64;
  outbox_capacity = 256;
  event_capacity = 1024;
  backoff_base = default_base;
  backoff_cap = default_cap;
  stable_after = 30 * nanos_per_sec;
}

-- What `Connection::spawn` makes of the capacity of the outbox.
unfoldable pub clamped : Config → Config
clamped c = record c { outbox_capacity = max c.outbox_capacity 1 }

pub data ConnectionState : Type 0 where
  disconnected connecting handshaking authenticating ready closed fatal : ConnectionState

pub data Event (V : Type 0) : Type 0 where
  connecting : (attempt : ℕ) → Event V
  connected : (session : String) → Event V
  ready resubscribe : (epoch : Epoch) → Event V
  frame : ServerMessage V → Event V
  disconnected : (reason : String) → Event V
  fatal : Fatal → Event V
  lagged : (missed : ℕ) → Event V

-- A call carries the sender of its acknowledgement, and the sender that `register` makes for it.
pub data Command (V S : Type 0) : Type 0 where
  call : (method : String) (params : List V) (ack reply : S) → Command V S
  subscribe : (name : String) (params : List V) (ack reply : S) → Command V S
  unsubscribe : (id : String) → Command V S
  shutdown : Command V S

pub data Mark : Type 0 where
  method sub : (id : String) → Mark

-- The frame before it is serialised.
pub record Outbound (V : Type 0) : Type 0 where
  pub frame : ClientMessage V
  pub mark : Option Mark

-- `tungstenite::Message`, with the code of a close frame as it is displayed.
pub data Message : Type 0 where
  text : String → Message
  close : Option (String × String) → Message
  ping pong binary raw : Message

pub data Step (V S : Type 0) : Type 0 where
  frame : Message → Step V S
  eof : Step V S
  failed : (error : String) → Step V S
  command : Command V S → Step V S
  handles_dropped deadline : Step V S

pub data Outcome : Type 0 where
  closed : (reason : String) → Outcome
  shutdown : Outcome
  fatal : Fatal → Outcome

-- What a step takes from elsewhere: the decoding of a frame, `Value::Null`, the parameters of the
-- login call, the `Debug` text of a duration, and which channels still have a receiver, once the
-- step has dropped those the runner holds itself.
pub record Env (V S : Type 0) : Type 0 where
  pub decode : String → Option (ServerMessage V)
  pub null : V
  pub credential_params : Credential → List V
  pub debug_duration : ℕ → String
  pub is_open : S → Bool

-- The channels are what was sent on them so far: the events, the replies to callers with the
-- acknowledgements, and, for the socket, the frames that it has accepted.
module _ (r : Rng) (V S : Type 0) where
  pub record Runner : Type 0 where
    pub config : Config
    pub session : Session
    pub methods : Correlator S
    pub subs : Correlator S
    pub liveness : LivenessPolicy
    pub backoff : Backoff r
    pub events : List (Event V)
    pub replies : List (S × Reply V)
    pub acks : List (S × String)
    pub state : ConnectionState
    pub socket : Option (List (Outbound V))
    pub priority : List (Outbound V)
    pub app : List (Outbound V)
    pub unflushed : List Mark
    pub ready_at : Option ℕ
    pub needs_flush : Bool
    pub timer : ℕ
    pub handshake_deadline : Option ℕ
    pub login_reply : Option S
    pub fatal : Option Fatal
    pub shutdown : Bool
    pub turn : Bool
