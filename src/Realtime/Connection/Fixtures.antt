-- ===== src/Realtime/Connection/Fixtures.antt =====
-- The runners, the environment and the inputs of the tests.
use rocketsocket.Base.{
  min, ℕ, suc, true, false, none, some, List, [], ◌∷◌, arith, nat_eq, if◌then◌else◌, ◌==◌, ℕ_eq,
  String_eq, ok, Option_eq,
}
use rocketsocket.Protocol.{ClientMessage, ServerMessage, opening}
use rocketsocket.Realtime.Backoff.{Rng}
use rocketsocket.Realtime.Session.{Phase}
use rocketsocket.Realtime.Correlate.{Pending}
use rocketsocket.Realtime.Connection.{
  Config, Credential, ConnectionState, Event, Command, method, Outbound, text, Outcome, closed, Env,
  Runner,
}
use rocketsocket.Realtime.Connection.Polls.{accepted, flushed, blocked, Answers}
use rocketsocket.Realtime.Connection.Run.{Attempt}

abbrev pub draws : Rng
draws = record { State = ℕ; u64 = λ s n. (min n s, suc s); u64-le = λ s n. omega arith }

-- The server says one thing, and channel 7 has a receiver.
abbrev pub world : Env ℕ ℕ
world = record {
  decode = λ t. if t == "connected" then some (ServerMessage.connected "s") else none;
  null = 0;
  credential_params = λ c. 1 ∷ [];
  debug_duration = λ d. "20s";
  is_open = λ s. nat_eq s 7;
}

abbrev pub config : Config
config = record {
  url = "ws://localhost";
  credential = Credential.resume "token";
  connect_timeout = 15;
  handshake_timeout = 20;
  ping_after = 25;
  dead_after = 45;
  command_capacity = 64;
  outbox_capacity = 2;
  event_capacity = 1024;
  backoff_base = 1;
  backoff_cap = 64;
  stable_after = 30;
}

abbrev pub created : Runner draws ℕ ℕ
created = record {
  config = config;
  session = record {
    phase = Phase.disconnected;
    proposed_version = "1";
    session_id = none;
    login_call = none;
  };
  methods = record { epoch = 0; next_id = 0; prefix = "m"; pending = [] };
  subs = record { epoch = 0; next_id = 0; prefix = "s"; pending = [] };
  liveness = record {
    idle_before_ping = 25;
    idle_before_dead = 45;
    last_seen = 100;
    ping_in_flight = false;
  };
  backoff = record { base = 1; cap = 64; attempt = 0; rng = 5 };
  events = [];
  replies = [];
  acks = [];
  state = ConnectionState.disconnected;
  socket = none;
  priority = [];
  app = [];
  unflushed = [];
  ready_at = none;
  needs_flush = false;
  timer = 100;
  handshake_deadline = none;
  login_reply = none;
  fatal = none;
  shutdown = false;
  turn = false;
}

abbrev pub begun : Runner draws ℕ ℕ
begun = record created {
  session = record created.session { phase = Phase.handshaking };
  state = ConnectionState.handshaking;
  socket = some [];
  priority = record { frame = opening; mark = none } ∷ [];
  timer = 120;
  handshake_deadline = some 120;
}

abbrev pub inputs : List (Answers ℕ ℕ × ℕ)
inputs =
    (
      record {
        offers = accepted ∷ [];
        flush = flushed;
        read = some (some (ok (text "connected")));
        commands = none;
        now = 101;
      },
      7,
    )
    ∷ (
      record {
        offers = accepted ∷ [];
        flush = blocked;
        read = some none;
        commands = none;
        now = 102;
      },
      9,
    )
    ∷ []

abbrev pub login_frame : Outbound ℕ
login_frame = record {
  frame = ClientMessage.method "m0" "login" (1 ∷ []);
  mark = some (method "m0");
}

abbrev pub login_call : Pending ℕ
login_call = record { epoch = 0; sent = false; reply = 7 }

abbrev pub driven : Runner draws ℕ ℕ
driven = record begun {
  session = record {
    phase = Phase.authenticating;
    proposed_version = "1";
    session_id = some "s";
    login_call = some "m0";
  };
  methods = record { epoch = 0; next_id = 1; prefix = "m"; pending = ("m0", login_call) ∷ [] };
  liveness = record begun.liveness { last_seen = 101 };
  events = Event.connected "s" ∷ [];
  state = ConnectionState.authenticating;
  socket = some (record { frame = opening; mark = none } ∷ login_frame ∷ []);
  priority = [];
  unflushed = method "m0" ∷ [];
  needs_flush = true;
  login_reply = some 7;
}

abbrev pub lost : Outcome
lost = closed "the server closed the socket"

abbrev pub turned : Runner draws ℕ ℕ
turned = record created { turn = true }

-- A full runner, with a frame on each queue.
abbrev pub queued : Runner draws ℕ ℕ
queued = record begun { app = login_frame ∷ [] }

abbrev pub both : Answers ℕ ℕ
both = record {
  offers = [];
  flush = blocked;
  read = some none;
  commands = some (some Command.shutdown);
  now = 110;
}

-- An attempt whose socket opens, and in which every handle of the client is dropped.
abbrev pub dropping : Attempt ℕ ℕ
dropping = record {
  commands = [];
  failure = none;
  started = 100;
  channel = 9;
  inputs =
      (
        record {
          offers = accepted ∷ [];
          flush = blocked;
          read = none;
          commands = some none;
          now = 101;
        },
        9,
      )
      ∷ [];
  ended = 105;
}

abbrev pub shut : Runner draws ℕ ℕ
shut = record begun {
  backoff = record created.backoff { attempt = 1 };
  events = Event.connecting 0 ∷ [];
  socket = some (record { frame = opening; mark = none } ∷ []);
  priority = [];
  needs_flush = true;
  turn = true;
}
