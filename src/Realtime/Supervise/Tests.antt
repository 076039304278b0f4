-- ===== src/Realtime/Supervise/Tests.antt =====
-- A stream's frame, a loss of the connection, and its end.
use rocketsocket.Base.{
  ℕ, String, ◌≡◌, refl, none, some, List, [], ◌∷◌, ℕ_eq, String_eq, ok, length, Option_eq,
}
use rocketsocket.Map.{Map, get}
use rocketsocket.Protocol.{ServerMessage}
use rocketsocket.Protocol.Streams.{Views, as_stream_event}
use rocketsocket.Realtime.Subscription
use rocketsocket.Realtime.Subscription.{Registry, StreamKey, publication}
use rocketsocket.Realtime.Session.{Fatal}
use rocketsocket.Realtime.Connection.{Event}
use rocketsocket.Realtime.Supervise.{World, connection, stream, stream_key_of, supervise}
use rocketsocket.Realtime.Supervise.Telling.{
  Each, first, through_fatal, stream_key_of-publication, supervise-Each,
}

abbrev views : Views String
views = record { as_str = λ v. some v; as_array = λ v. some (v ∷ []) }

abbrev world : World String ℕ
world = record {
  views = views;
  decode = λ stream event args. length args;
  answer = λ epoch id. ok "s9";
}

abbrev room : StreamKey
room = record { stream = "room-messages"; event = "r1" }

abbrev fields : Map String String
fields = ("eventName", "r1") ∷ ("args", "hello") ∷ []

abbrev frame : ServerMessage String
frame = ServerMessage.changed (publication room) "id" (some fields) none

abbrev events : List (Event String)
events =
    Event.frame frame
    ∷ Event.disconnected "gone"
    ∷ Event.fatal (Fatal.session_expired "old")
    ∷ Event.lagged 1
    ∷ []

abbrev empty_registry : Registry String
empty_registry = Subscription.new

event_named : get fields "eventName" ≡ some "r1"
unfolding get
event_named = refl

told :
    (supervise world empty_registry 9 events).1
    ≡ stream room 1 ("hello" ∷ [])
      ∷ connection (Event.disconnected "gone")
      ∷ connection (Event.fatal (Fatal.session_expired "old"))
      ∷ []
unfolding supervise publication as_stream_event get
told = refl

stream_key_of-publication_example : stream_key_of views frame ≡ some room
stream_key_of-publication_example =
    stream_key_of-publication views room "id" fields none "r1" event_named refl

supervise-Each_example :
    Each world (first 9 (through_fatal events)) (supervise world empty_registry 9 events).1
supervise-Each_example = supervise-Each world empty_registry 9 events
