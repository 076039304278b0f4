-- ===== src/Realtime/Supervise/Telling.antt =====
-- What the application is told.
use rocketsocket.Base.{
  ℕ, zero, suc, String, ◌≡◌, refl, ap, inl, inr, Bool, true, false, not, Option, some, List, [],
  ◌∷◌, if◌then◌else◌, ℕ_eq, String_eq, Bool-cases, and_then, Option-cases, is_some, Option_eq,
}
use rocketsocket.Map.{Map, get}
use rocketsocket.Protocol.{ServerMessage}
use rocketsocket.Protocol.Streams.{Views, StreamEvent, as_stream_event, stream_event_of-prefix}
use rocketsocket.Realtime.Correlate.{Epoch}
use rocketsocket.Realtime.Subscription.{Registry, StreamKey, publication}
use rocketsocket.Realtime.Connection.{Event}
use rocketsocket.Realtime.Supervise.{
  World, ClientEvent, stream, resubscribed, connection, key_of, is_terminal, stream_key_of,
  frame_told, handled, supervise,
}

-- A frame for the collection that a key is published as, which names the key's event, is delivered
-- under the key.
pub stream_key_of-publication :
    {V : Type 0} (views : Views V) (key : StreamKey) (id : String) (fields : Map String V)
    (cleared : Option (List String)) (value : V)
    → get fields "eventName" ≡ some value
    → views.as_str value ≡ some key.event
    → stream_key_of views (ServerMessage.changed (publication key) id (some fields) cleared)
      ≡ some key
unfolding stream_key_of key_of publication as_stream_event
stream_key_of-publication views key id fields cleared value named is_text =
    ap (λ s. and_then s (λ (e : StreamEvent _). some (key_of e)))
      (stream_event_of-prefix views key.stream key.event fields value named is_text)

-- The first `n` of a list.
abbrev pub first : {A : Type 0} → ℕ → List A → List A
first zero xs = []
first (suc n) [] = []
first (suc n) (x ∷ xs) = x ∷ first n xs

first_nil : {A : Type 0} (n : ℕ) → first {A = A} n [] ≡ []
first_nil zero = refl
first_nil (suc n) = refl

-- The events up to the first terminal one, with that.
abbrev pub through_fatal : {V : Type 0} → List (Event V) → List (Event V)
through_fatal [] = []
through_fatal (e ∷ rest) = if is_terminal e then e ∷ [] else e ∷ through_fatal rest

module _ {V E : Type 0} (world : World V E) where
  -- An event that is passed on as it is.
  abbrev pub is_plain : Event V → Bool
  is_plain (Event.frame frame) = not (is_some (as_stream_event world.views frame))
  is_plain (Event.resubscribe epoch) = false
  is_plain _ = true

  -- What the application may be told for an event.
  pub data Tells : Event V → ClientEvent V E → Type 0 where
    passes : (e : Event V) → is_plain e ≡ true → Tells e (connection e)
    restores : (epoch : Epoch) (n : ℕ) → Tells (Event.resubscribe epoch) (resubscribed epoch n)
    streams :
        (frame : ServerMessage V) (s : StreamEvent V)
        → as_stream_event world.views frame ≡ some s
        → Tells
            (Event.frame frame)
            (stream (key_of s) (world.decode s.stream s.event_name s.args) s.args)

  pub data Each : List (Event V) → List (ClientEvent V E) → Type 0 where
    none_left : Each [] []
    one :
        {e : Event V} {x : ClientEvent V E} {es : List (Event V)} {xs : List (ClientEvent V E)}
        → Tells e x
        → Each es xs
        → Each (e ∷ es) (x ∷ xs)

  handled-Tells : (r : Registry V) (e : Event V) → Tells e (handled world r e).1
  unfolding handled frame_told key_of
  handled-Tells r (Event.connecting n) = passes (Event.connecting n) refl
  handled-Tells r (Event.connected s) = passes (Event.connected s) refl
  handled-Tells r (Event.ready n) = passes (Event.ready n) refl
  handled-Tells r (Event.resubscribe n) = restores n _
  handled-Tells r (Event.frame f) = elim (Option-cases (as_stream_event world.views f)) [
    | inl e ↦ rw (e, frame_told) (passes (Event.frame f) (rw (e, is_plain) refl))
    | inr (s, e) ↦ rw (e, frame_told) (streams f s e)
  ]
  handled-Tells r (Event.disconnected s) = passes (Event.disconnected s) refl
  handled-Tells r (Event.fatal f) = passes (Event.fatal f) refl
  handled-Tells r (Event.lagged n) = passes (Event.lagged n) refl

  -- The application is told each event of the connection exactly once and in order, up to and with
  -- the first terminal one, as long as it takes them.
  pub supervise-Each :
      (r : Registry V) (n : ℕ) (events : List (Event V))
      → Each (first n (through_fatal events)) (supervise world r n events).1
  unfolding supervise
  supervise-Each r zero [] = none_left
  supervise-Each r (suc n) [] = none_left
  supervise-Each r zero (e ∷ rest) = none_left
  supervise-Each r (suc n) (e ∷ rest) = elim (Bool-cases (is_terminal e)) [
    | inl ends ↦ rw (ends, supervise) (one (handled-Tells r e) (rw (first_nil n) none_left))
    | inr goes ↦
        rw (goes, supervise) (one (handled-Tells r e) (supervise-Each (handled world r e).0 n rest))
  ]
