-- ===== src/Realtime/Supervise.antt =====
-- crates/rocketsocket-realtime/src/client.rs: the client and its supervisor. `StreamEvent::decode` of
-- the typed events, the answers to the requests of a replay, and the parameters of a subscription
-- are arguments.
pub mod Telling
mod Tests
use rocketsocket.Base.{
  ℕ, zero, suc, ◌+◌, ◌-◌, ◌*◌, ◌/◌, ◌%◌, ◌^◌, ◌≤◌, ◌<◌, String, ◌≡◌, refl, sym, ap, ◌∙◌, ◌≢◌, ◌↔◌,
  ◌⊎◌, inl, inr, Bool, true, false, not, ◌&&◌, ◌||◌, Option, none, some, List, [], ◌∷◌, ◌++◌, arith,
  ltb, leb, nat_eq, if◌then◌else◌, Eq, ◌==◌, ℕ_eq, String_eq, Bool-cases, if-keeps, Result-cases,
  elem-append, elem-retain, and_then, Option-cases, is_some, is_some_and, Result, ok, err, map_err,
  length, All, retain, elem, option_eq, option_eq_iff, Option_eq,
}
use rocketsocket.Protocol.{ServerMessage}
use rocketsocket.Protocol.Streams.{Views, StreamEvent, as_stream_event}
use rocketsocket.Realtime.Correlate.{Epoch, CallError}
use rocketsocket.Realtime.Subscription
use rocketsocket.Realtime.Subscription.{Registry, StreamKey, connection_lost}
use rocketsocket.Realtime.Replay.{replay}
use rocketsocket.Realtime.Connection.{Event}

-- Over the decoded events `E`.
pub data ClientEvent (V E : Type 0) : Type 0 where
  stream : (key : StreamKey) (event : E) (args : List V) → ClientEvent V E
  resubscribed : (epoch : Epoch) (restored : ℕ) → ClientEvent V E
  connection : Event V → ClientEvent V E

unfoldable pub key_of : {V : Type 0} → StreamEvent V → StreamKey
key_of s = record { stream = s.stream; event = s.event_name }

unfoldable pub is_terminal : {V : Type 0} → Event V → Bool
is_terminal (Event.fatal f) = true
is_terminal _ = false

unfoldable pub stream_key_of : {V : Type 0} → Views V → ServerMessage V → Option StreamKey
unfolding key_of
stream_key_of views frame = and_then (as_stream_event views frame) (λ event. some (key_of event))

-- `Client::subscribe`, with what the connection answers.
unfoldable pub subscribe :
    {V : Type 0}
    → (StreamKey → List V)
    → Registry V
    → StreamKey
    → Result String (CallError V)
    → Registry V × Result StreamKey (CallError V)
subscribe params r key (ok id) = (Subscription.subscribe r id key (params key), ok key)
subscribe params r key (err e) = (r, err e)

-- What the supervisor takes from elsewhere.
pub record World (V E : Type 0) : Type 0 where
  pub views : Views V
  pub decode : String → String → List V → E
  pub answer : Epoch → String → Result String (CallError V)

module _ {V E : Type 0} (world : World V E) where
  unfoldable pub frame_told : ServerMessage V → Option (StreamEvent V) → ClientEvent V E
  unfolding key_of
  frame_told frame none = connection (Event.frame frame)
  frame_told frame (some s) = stream (key_of s) (world.decode s.stream s.event_name s.args) s.args

  -- The match on one event: the registry, and what is sent to the application.
  unfoldable pub handled : Registry V → Event V → Registry V × ClientEvent V E
  unfolding frame_told
  handled r (Event.disconnected reason) =
      (connection_lost r, connection (Event.disconnected reason))
  handled r (Event.resubscribe epoch) =
      let (replayed, restored) = replay (world.answer epoch) r in
      (replayed, resubscribed epoch restored)
  handled r (Event.frame frame) = (r, frame_told frame (as_stream_event world.views frame))
  handled r other = (r, connection other)

  -- The loop, over the events of the connection. The application takes so many of its events before
  -- it drops the receiver.
  unfoldable pub supervise : Registry V → ℕ → List (Event V) → Registry V × List (ClientEvent V E)
  unfolding handled is_terminal
  supervise r n [] = (r, [])
  supervise r zero (e ∷ rest) = ((handled r e).0, [])
  supervise r (suc n) (e ∷ rest) =
      let (after, told) = handled r e in
      let (last, later) = supervise after n rest in
      if is_terminal e then (after, told ∷ []) else (last, told ∷ later)
