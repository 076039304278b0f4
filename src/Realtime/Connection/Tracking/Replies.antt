-- ===== src/Realtime/Connection/Tracking/Replies.antt =====
-- A frame of the server keeps the tracking.
use rocketsocket.Base.{
  ℕ, suc, String, ◌≡◌, refl, ◌⊎◌, inl, inr, Option, none, some, List, [], ◌∷◌, ◌==◌, ℕ_eq,
  String_eq, Bool-cases, Option-cases, Result, ok, Option_eq,
}
use rocketsocket.Protocol.{DdpError, ServerMessage, is_malformed}
use rocketsocket.Realtime.Backoff.{Rng}
use rocketsocket.Realtime.Session.{Session, Action, handle, dispatch, login_reply}
use rocketsocket.Realtime.Correlate.Wire.{resolve-Tracks}
use rocketsocket.Realtime.Connection.{Message, Env, Runner, text, close, ping, pong, binary, raw}
use rocketsocket.Realtime.Connection.State.{emit}
use rocketsocket.Realtime.Connection.Frames.{
  resolve_method, resolve_sub, resolve_ready, correlate, apply_all, publish, on_message, on_text,
  on_payload, on_frame,
}
use rocketsocket.Realtime.Connection.Polls.{handed}
use rocketsocket.Realtime.Connection.Tracking.{Lane, method_lane, sub_lane, TracksLane, weaken_lane}
use rocketsocket.Realtime.Connection.Tracking.Inputs.{apply-TracksLane}

-- The session asks for at most one action.
login_reply-short :
    {V : Type 0} (s : Session) (e : Option (DdpError V))
    → (a : Action V) × ((login_reply s e).1 ≡ a ∷ [])
unfolding login_reply
login_reply-short s none = (_, refl)
login_reply-short s (some e) = (_, refl)

dispatch-short :
    {V : Type 0} (s : Session) (m : ServerMessage V)
    → ((dispatch s m).1 ≡ []) ⊎ ((a : Action V) × ((dispatch s m).1 ≡ a ∷ []))
unfolding dispatch
dispatch-short s (ServerMessage.ping id) = inr (_, refl)
dispatch-short s (ServerMessage.connected session) = inr (_, refl)
dispatch-short s (ServerMessage.failed version) = inr (_, refl)
dispatch-short s (ServerMessage.result id value e) = elim (Bool-cases (s.login_call == some id)) [
  | inl own ↦ rw own (inr (login_reply-short s e))
  | inr other ↦ rw other (inl refl)
]
dispatch-short s _ = inl refl

handle-short :
    {V : Type 0} (s : Session) (m : ServerMessage V)
    → ((handle s m).1 ≡ []) ⊎ ((a : Action V) × ((handle s m).1 ≡ a ∷ []))
unfolding handle
handle-short s m = elim (Bool-cases (is_malformed m)) [
  | inl bad ↦ rw bad (inr (_, refl))
  | inr good ↦ rw good (dispatch-short s m)
]

module _ {r : Rng} {V S : Type 0} (env : Env V S) where
  resolve_method-TracksLane :
      (lane : Lane) (x : Runner r V S) (id : String) (outcome : Result V (DdpError V)) (room : ℕ)
      → TracksLane lane x room
      → TracksLane lane (resolve_method env x id outcome) room
  unfolding resolve_method handed
  resolve_method-TracksLane method_lane x id outcome room t =
      resolve-Tracks _ _ _ _ _ room env.is_open id outcome t
  resolve_method-TracksLane sub_lane x id outcome room t = t

  resolve_sub-TracksLane :
      (lane : Lane) (x : Runner r V S) (id : String) (outcome : Result V (DdpError V)) (room : ℕ)
      → TracksLane lane x room
      → TracksLane lane (resolve_sub env x id outcome) room
  unfolding resolve_sub handed
  resolve_sub-TracksLane method_lane x id outcome room t = t
  resolve_sub-TracksLane sub_lane x id outcome room t =
      resolve-Tracks _ _ _ _ _ room env.is_open id outcome t

  resolve_ready-TracksLane :
      (lane : Lane) (x : Runner r V S) (ids : List String) (room : ℕ)
      → TracksLane lane x room
      → TracksLane lane (resolve_ready env x ids) room
  unfolding resolve_ready
  resolve_ready-TracksLane lane x [] room t = t
  resolve_ready-TracksLane lane x (id ∷ ids) room t =
      resolve_ready-TracksLane lane (resolve_sub env x id (ok env.null)) ids room
        (resolve_sub-TracksLane lane x id _ room t)

  correlate-TracksLane :
      (lane : Lane) (x : Runner r V S) (m : ServerMessage V) (room : ℕ)
      → TracksLane lane x room
      → TracksLane lane (correlate env x m) room
  unfolding correlate
  correlate-TracksLane lane x (ServerMessage.result id value e) room t =
      resolve_method-TracksLane lane x id _ room t
  correlate-TracksLane lane x (ServerMessage.ready ids) room t =
      resolve_ready-TracksLane lane x ids room t
  correlate-TracksLane lane x (ServerMessage.nosub id e) room t =
      resolve_sub-TracksLane lane x id _ room t
  correlate-TracksLane lane x _ room t = t

  -- A publication is an event, or nothing.
  publish-TracksLane :
      (lane : Lane) (x : Runner r V S) (m : ServerMessage V) (room : ℕ)
      → TracksLane lane x room
      → TracksLane lane (publish x m) room
  unfolding publish emit handed
  publish-TracksLane lane x (ServerMessage.connected session) room t = t
  publish-TracksLane lane x (ServerMessage.added c id fields) room t = t
  publish-TracksLane lane x (ServerMessage.changed c id fields cleared) room t = t
  publish-TracksLane lane x (ServerMessage.removed c id) room t = t
  publish-TracksLane lane x (ServerMessage.added_before c id fields before) room t = t
  publish-TracksLane lane x (ServerMessage.moved_before c id before) room t = t
  publish-TracksLane lane x (ServerMessage.error reason offending) room t = t
  publish-TracksLane lane x _ room t = t

  on_message-TracksLane :
      (lane : Lane) (x : Runner r V S) (m : ServerMessage V) (now : ℕ) (channel : S) (room : ℕ)
      → TracksLane lane x (suc room)
      → TracksLane lane (on_message env x m now channel) room
  unfolding on_message handed apply_all
  on_message-TracksLane lane x m now channel room t =
      let heard = record x { session = (handle x.session m).0 } in
      publish-TracksLane lane _ m room (
        correlate-TracksLane lane _ m room (elim (handle-short x.session m) [
          | inl e ↦ rw e (weaken_lane lane heard room t)
          | inr (a, e) ↦ rw e (apply-TracksLane env lane heard a now channel room t)
        ]))

  on_text-TracksLane :
      (lane : Lane) (x : Runner r V S) (frame : String) (now : ℕ) (channel : S) (room : ℕ)
      → TracksLane lane x (suc room)
      → TracksLane lane (on_text env x frame now channel) room
  unfolding on_text
  on_text-TracksLane lane x frame now channel room t = elim (Option-cases (env.decode frame)) [
    | inl e ↦ rw (e, on_text) (weaken_lane lane x room t)
    | inr (m, e) ↦ rw (e, on_text) (on_message-TracksLane lane x m now channel room t)
  ]

  on_payload-TracksLane :
      (lane : Lane) (x : Runner r V S) (frame : Message) (now : ℕ) (channel : S) (room : ℕ)
      → TracksLane lane x (suc room)
      → TracksLane lane (on_payload env x frame now channel).0 room
  unfolding on_payload
  on_payload-TracksLane lane x (text frame) now channel room t =
      on_text-TracksLane lane x frame now channel room t
  on_payload-TracksLane lane x (close details) now channel room t = weaken_lane lane x room t
  on_payload-TracksLane lane x ping now channel room t = weaken_lane lane x room t
  on_payload-TracksLane lane x pong now channel room t = weaken_lane lane x room t
  on_payload-TracksLane lane x binary now channel room t = weaken_lane lane x room t
  on_payload-TracksLane lane x raw now channel room t = weaken_lane lane x room t

  pub on_frame-TracksLane :
      (lane : Lane) (x : Runner r V S) (frame : Message) (now : ℕ) (channel : S) (room : ℕ)
      → TracksLane lane x (suc room)
      → TracksLane lane (on_frame env x frame now channel).0 room
  unfolding on_frame handed
  on_frame-TracksLane lane x frame now channel room t =
      on_payload-TracksLane lane _ frame now channel room t
