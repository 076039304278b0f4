-- ===== src/Realtime/Session/Replies.antt =====
-- What a frame does to the session, and which actions it asks for.
use rocketsocket.Base.{
  elem, is_some_and, ◌≢◌, List, String, [], ◌∷◌, Option, none, some, true, ◌≡◌, refl, ◌⊎◌, inl, inr,
  arith, ◌↔◌, ◌==◌, String_eq, Option_eq, option_eq_iff, Bool-cases,
}
use rocketsocket.Protocol.{modelled_tags, DdpError, ServerMessage, is_malformed}
use rocketsocket.Realtime.Session.{
  classify_login_failure, login_reply, dispatch, ready, Session, Fatal, Action, fatal,
  fatally_closed, resubscribe, handle,
}

-- The frame is the successful reply to the login call.
abbrev pub LogsIn : {V : Type 0} → Session → ServerMessage V → Type 0
LogsIn {V} s m =
    (id : String) × (value : Option V) × (m ≡ ServerMessage.result id value none)
    × (s.login_call ≡ some id)

own_reply : (s : Session) (id : String) → (s.login_call == some id) ≡ true → s.login_call ≡ some id
own_reply s id h = (option_eq_iff s.login_call (some id)).0 h

-- A frame makes the session ready, if it was not, only as the successful reply to its own login call.
pub ready_by_login :
    {V : Type 0} (s : Session) (m : ServerMessage V)
    → (handle s m).0.phase ≡ ready
    → (s.phase ≡ ready) ⊎ LogsIn s m
unfolding handle is_malformed
ready_by_login s (ServerMessage.result id value none) h =
    elim (Bool-cases (s.login_call == some id)) [
      | inl own ↦ inr (id, value, refl, own_reply s id own)
      | inr other ↦ inl (rw other at h)
    ]
ready_by_login s (ServerMessage.result id value (some e)) h = ground arith
ready_by_login s (ServerMessage.unknown u) h = inl (ground arith)
ready_by_login s (ServerMessage.connected session) h = cc
ready_by_login s (ServerMessage.failed version) h = cc
ready_by_login s _ h = inl h

-- The subscriptions are re-issued exactly on the successful reply to the login call.
resubscribe_by_login :
    {V : Type 0} (s : Session) (m : ServerMessage V)
    → (handle s m).1 ≡ resubscribe ∷ []
    → LogsIn s m
unfolding handle is_malformed
resubscribe_by_login s (ServerMessage.result id value none) h =
    elim (Bool-cases (s.login_call == some id)) [
      | inl own ↦ (id, value, refl, own_reply s id own)
      | inr other ↦ absurd (ground arith)
    ]
resubscribe_by_login s _ h = absurd (ground arith)

login_resubscribes :
    {V : Type 0} (s : Session) (m : ServerMessage V)
    → LogsIn s m
    → (handle s m).1 ≡ resubscribe ∷ []
unfolding handle is_malformed
login_resubscribes s m (id, value, e, call) =
    rw (e, call) (ground (arith, option_eq_iff (some id) (some id)))

-- The subscriptions are re-issued exactly on the successful reply to the login call.
resubscribe_iff :
    {V : Type 0} (s : Session) (m : ServerMessage V)
    → ((handle s m).1 ≡ resubscribe ∷ []) ↔ LogsIn s m
resubscribe_iff s m = (resubscribe_by_login s m, login_resubscribes s m)

-- A second reply with the id of the first is ignored, whatever the first one did.
handle_twice :
    {V : Type 0} (s : Session) (id : String) (v w : Option V) (d e : Option (DdpError V))
    → let after = (handle s (ServerMessage.result id v d)).0 in
      handle after (ServerMessage.result id w e) ≡ (after, [])
unfolding handle is_malformed
handle_twice s id v w none e = ground (arith, option_eq_iff s.login_call (some id))
handle_twice s id v w (some d) e = ground (arith, option_eq_iff s.login_call (some id))

-- A terminal action is a list with a fatal reason alone.
abbrev pub FailsWith : {V : Type 0} → List (Action V) → Type 0
FailsWith actions = (f : Fatal) × (actions ≡ fatal f ∷ [])

login_reply-fatal_iff :
    {V : Type 0} (s : Session) (e : Option (DdpError V))
    → ((login_reply s e).0.phase ≡ fatally_closed) ↔ FailsWith (login_reply s e).1
unfolding login_reply
login_reply-fatal_iff s none = ((λ h. cc), (λ (f, h). cc))
login_reply-fatal_iff s (some e) = ((λ h. (classify_login_failure e, refl)), (λ h. refl))

-- A frame ends a session that had not failed exactly when it asks the runner, and for nothing else,
-- to stop.
pub fatal_iff :
    {V : Type 0} (s : Session) (m : ServerMessage V)
    → s.phase ≢ fatally_closed
    → ((handle s m).0.phase ≡ fatally_closed) ↔ FailsWith (handle s m).1
unfolding handle is_malformed dispatch
fatal_iff s (ServerMessage.result id value e) h = elim (Bool-cases (s.login_call == some id)) [
  | inl own ↦ rw own (login_reply-fatal_iff s e)
  | inr other ↦ rw other ((λ k. absurd (h k)), (λ (f, k). cc))
]
fatal_iff s (ServerMessage.failed version) h = ((λ k. (_, refl)), (λ k. refl))
fatal_iff s (ServerMessage.connected session) h = ((λ k. cc), (λ (f, k). cc))
fatal_iff s (ServerMessage.ping id) h = ((λ k. absurd (h k)), (λ (f, k). cc))
fatal_iff s (ServerMessage.unknown u) h =
    elim (Bool-cases (is_some_and u.msg (elem modelled_tags))) [
      | inl bad ↦ rw bad ((λ k. absurd (h k)), (λ (f, k). cc))
      | inr good ↦ rw good ((λ k. absurd (h k)), (λ (f, k). cc))
    ]
fatal_iff s _ h = ((λ k. absurd (h k)), (λ (f, k). cc))
