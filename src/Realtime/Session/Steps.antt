-- ===== src/Realtime/Session/Steps.antt =====
-- The states that the calls of a runner reach.
use rocketsocket.Base.{
  String, Option, none, some, Bool, true, false, ◌≡◌, refl, ap, inl, inr, ◌==◌, String_eq,
  Option_eq, option_eq_iff, is_some, Bool-cases,
}
use rocketsocket.Protocol.{DdpError, ServerMessage, is_malformed}
use rocketsocket.Realtime.Session.{
  Phase, disconnected, handshaking, authenticating, ready, fatally_closed, Session, new, connect,
  expect_login, socket_gone, dispatch, login_reply, handle, phase_without_socket,
}

-- A call of the runner: it opens a connection, feeds a frame in, reports the id of the login call
-- that it makes while authenticating, or notes that the socket is gone.
pub data Step (V : Type 0) (s : Session) : Session → Type 0 where
  opens : Step V s (connect {V = V} s).0
  receives : (m : ServerMessage V) → Step V s (handle s m).0
  logs_in : (id : String) → s.phase ≡ authenticating → Step V s (expect_login s id)
  loses : Step V s (socket_gone s)

pub data Reach (V : Type 0) (s : Session) : Session → Type 0 where
  here : Reach V s s
  next : {t u : Session} → Reach V s t → Step V t u → Reach V s u

-- Before the handshake is complete there is no session id and no login call; a login call, and a
-- logged-in session, have a session id; and a login call is outstanding only while the session
-- authenticates or has failed.
abbrev pub IsLawful : Phase → Bool → Bool → Type 0
IsLawful disconnected sid call = (sid ≡ false) × (call ≡ false)
IsLawful handshaking sid call = (sid ≡ false) × (call ≡ false)
IsLawful authenticating sid call = sid ≡ true
IsLawful ready sid call = (sid ≡ true) × (call ≡ false)
IsLawful fatally_closed sid call = (call ≡ true) → (sid ≡ true)

abbrev pub Lawful : Session → Type 0
Lawful s = IsLawful s.phase (is_some s.session_id) (is_some s.login_call)

-- A login call has a session id beside it, in every phase.
call_has_session : (p : Phase) (sid call : Bool) → IsLawful p sid call → call ≡ true → sid ≡ true
call_has_session disconnected sid call h e = cc
call_has_session handshaking sid call h e = cc
call_has_session authenticating sid call h e = h
call_has_session ready sid call h e = h.0
call_has_session fatally_closed sid call h e = h e

gone-IsLawful : (p : Phase) → IsLawful (phase_without_socket p) false false
unfolding phase_without_socket
gone-IsLawful fatally_closed = λ e. e
gone-IsLawful disconnected = (refl, refl)
gone-IsLawful handshaking = (refl, refl)
gone-IsLawful authenticating = (refl, refl)
gone-IsLawful ready = (refl, refl)

login_reply-Lawful :
    {V : Type 0} (s : Session) (id : String) (e : Option (DdpError V))
    → Lawful s
    → s.login_call ≡ some id
    → Lawful (login_reply s e).0
unfolding login_reply
login_reply-Lawful s id none h call =
    (call_has_session s.phase _ (is_some s.login_call) h (ap is_some call), refl)
login_reply-Lawful s id (some e) h call = λ no_call. cc

dispatch-Lawful :
    {V : Type 0} (s : Session) (m : ServerMessage V) → Lawful s → Lawful (dispatch s m).0
unfolding dispatch
dispatch-Lawful s (ServerMessage.connected session) h = refl
dispatch-Lawful s (ServerMessage.failed version) h = call_has_session s.phase _ _ h
dispatch-Lawful s (ServerMessage.result id value e) h =
    elim (Bool-cases (s.login_call == some id)) [
      | inl own ↦
          rw own (login_reply-Lawful s id e h ((option_eq_iff s.login_call (some id)).0 own))
      | inr other ↦ rw other h
    ]
dispatch-Lawful s _ h = h

-- Every session that the calls reach from a new one is lawful.
Step-Lawful : {V : Type 0} {s t : Session} → Step V s t → Lawful s → Lawful t
unfolding connect expect_login socket_gone handle
Step-Lawful opens h = (refl, refl)
Step-Lawful {s = s} (receives m) h = elim (Bool-cases (is_malformed m)) [
  | inl bad ↦ rw bad h
  | inr good ↦ rw good (dispatch-Lawful s m h)
]
Step-Lawful {s = s} (logs_in id e) h = rw e (rw e at h)
Step-Lawful {s = s} loses h = gone-IsLawful s.phase

Reach-Lawful_from : {V : Type 0} {s t : Session} → Lawful s → Reach V s t → Lawful t
Reach-Lawful_from h here = h
Reach-Lawful_from h (next r step) = Step-Lawful step (Reach-Lawful_from h r)

-- Every session that the calls of a runner, which reports its login call while the session
-- authenticates, reach from a new one is lawful: no session id and no login call before the
-- handshake is complete, a session id while it authenticates and while it is ready, and no login
-- call outstanding once it is ready.
pub Reach-Lawful :
    {V : Type 0} (version : String) {s : Session} → Reach V (new version) s → Lawful s
unfolding new
Reach-Lawful version r = Reach-Lawful_from (refl, refl) r
