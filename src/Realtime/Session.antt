-- ===== src/Realtime/Session.antt =====
-- crates/rocketsocket-realtime/src/session.rs: the connection lifecycle. A method of `Session`
-- returns the new state beside its actions.
mod Tests
pub mod Steps
pub mod Replies
use rocketsocket.Base.{
  String, List, [], ◌∷◌, Option, none, some, Bool, true, false, if◌then◌else◌, ◌==◌, is_some_and,
  String_eq, Option_eq, option_eq,
}
use rocketsocket.Protocol.{
  DdpError, ClientMessage, ServerMessage, UnknownMessage, opening, code_to_string,
  is_expired_session, is_malformed,
}

pub data Phase : Type 0 where
  disconnected handshaking authenticating ready fatally_closed : Phase

pub data Fatal : Type 0 where
  version_mismatch : (version offered : String) → Fatal
  session_expired : String → Fatal
  login_rejected : String → Fatal

pub data Action (V : Type 0) : Type 0 where
  send : ClientMessage V → Action V
  login resubscribe : Action V
  fatal : Fatal → Action V
  protocol_violation : (msg : Option String) → Action V

pub record Session : Type 0 where
  pub phase : Phase
  pub proposed_version : String
  pub session_id : Option String
  pub login_call : Option String

unfoldable pub new : String → Session
new version = record {
  phase = disconnected;
  proposed_version = version;
  session_id = none;
  login_call = none;
}

unfoldable pub is_fatal : Session → Bool
is_fatal s = elim s.phase [ fatally_closed ↦ true | _ ↦ false ]

unfoldable pub connect : {V : Type 0} → Session → Session × Action V
connect s = (record s { phase = handshaking; session_id = none; login_call = none }, send opening)

unfoldable pub expect_login : Session → String → Session
expect_login s call_id = record s { login_call = some call_id }

-- The phase after the socket is gone: a terminal failure stays terminal.
unfoldable pub phase_without_socket : Phase → Phase
phase_without_socket fatally_closed = fatally_closed
phase_without_socket _ = disconnected

-- `Session::disconnected`.
unfoldable pub socket_gone : Session → Session
unfolding phase_without_socket
socket_gone s = record s {
  phase = phase_without_socket s.phase;
  session_id = none;
  login_call = none;
}

abbrev pub unwrap_or {ℓ} : {A : Type ℓ} → Option A → A → A
unwrap_or none d = d
unwrap_or (some a) d = a

unfoldable pub describe : {V : Type 0} → DdpError V → String
describe e = unwrap_or e.reason (unwrap_or e.message (code_to_string e.error))

unfoldable pub classify_login_failure : {V : Type 0} → DdpError V → Fatal
classify_login_failure e =
    if is_expired_session e then session_expired (describe e) else login_rejected (describe e)

-- The `msg` tag of a frame that landed in the catch-all.
unfoldable pub violation_tag : {V : Type 0} → ServerMessage V → Option String
violation_tag (ServerMessage.unknown u) = u.msg
violation_tag _ = none

-- The reply to the login call.
unfoldable pub login_reply :
    {V : Type 0} → Session → Option (DdpError V) → Session × List (Action V)
login_reply s none = (record s { phase = ready; login_call = none }, resubscribe ∷ [])
login_reply s (some e) =
    (record s { phase = fatally_closed; login_call = none }, fatal (classify_login_failure e) ∷ [])

-- The match of `handle`, for a frame that is not malformed.
unfoldable pub dispatch : {V : Type 0} → Session → ServerMessage V → Session × List (Action V)
unfolding login_reply
dispatch s (ServerMessage.ping id) = (s, send (ClientMessage.pong id) ∷ [])
dispatch s (ServerMessage.connected session) =
    (record s { session_id = some session; phase = authenticating }, login ∷ [])
dispatch s (ServerMessage.failed version) =
    (record s { phase = fatally_closed }, fatal (version_mismatch s.proposed_version version) ∷ [])
dispatch s (ServerMessage.result id value e) =
    if s.login_call == some id then login_reply s e else (s, [])
dispatch s _ = (s, [])

unfoldable pub handle : {V : Type 0} → Session → ServerMessage V → Session × List (Action V)
unfolding dispatch violation_tag
handle s message =
    if is_malformed message
    then (s, protocol_violation (violation_tag message) ∷ [])
    else dispatch s message
