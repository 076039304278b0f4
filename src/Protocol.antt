-- ===== src/Protocol.antt =====
-- crates/rocketsocket-model/src/protocol.rs: the frames of the wire protocol and the server's
-- errors, as values after decoding. `V` is `serde_json::Value`, which is a parameter. A
-- `serde_json::Map` is a map from texts.
pub mod Streams
pub mod Errors
mod Tests
use text.Mathlib.Text.{find?}
use Prim.Native.String.{◌++◌}
use rocketsocket.Base.{
  ℕ, suc, String, List, [], ◌∷◌, Option, none, some, Bool, false, ◌||◌, is_some, is_some_and, elem,
  String_eq,
}
use rocketsocket.Base.Texts.{to_decimal}
use rocketsocket.Map.{Map}

-- `i64`: `negsuc n` is -(n + 1).
pub data ℤ : Type 0 where
  pos : ℕ → ℤ
  negsuc : ℕ → ℤ

pub data ErrorCode : Type 0 where
  number : ℤ → ErrorCode
  string : String → ErrorCode

-- `Display for ErrorCode`.
unfoldable pub code_to_string : ErrorCode → String
code_to_string (number (pos n)) = to_decimal n
code_to_string (number (negsuc n)) = "-" ++ to_decimal (suc n)
code_to_string (string code) = code

pub record DdpError (V : Type 0) : Type 0 where
  pub error : ErrorCode
  pub reason : Option String
  pub message : Option String
  pub error_type : Option String
  pub is_client_safe : Option Bool
  pub details : Option V

abbrev pub reason_logged_out : String
reason_logged_out = "been logged out by the server"

abbrev pub reason_session_expired : String
reason_session_expired = "session has expired"

-- `str::contains`.
unfoldable pub text_contains : String → String → Bool
text_contains text part = is_some (find? text part)

abbrev pub code_too_many_requests : String
code_too_many_requests = "too-many-requests"

expired_text : String → Bool
unfolding text_contains
expired_text text =
    text_contains text reason_logged_out || text_contains text reason_session_expired

unfoldable pub is_expired_session : {V : Type 0} → DdpError V → Bool
unfolding expired_text
is_expired_session e = is_some_and e.reason expired_text || is_some_and e.message expired_text

abbrev pub ddp_version : String
ddp_version = "1"

pub data ClientMessage (V : Type 0) : Type 0 where
  connect : (version : String) (support : List String) → ClientMessage V
  method : (id name : String) (params : List V) → ClientMessage V
  sub : (id name : String) (params : List V) → ClientMessage V
  unsub : (id : String) → ClientMessage V
  ping : (id : Option String) → ClientMessage V
  pong : (id : Option String) → ClientMessage V

-- `ClientMessage::connect()`.
abbrev pub opening : {V : Type 0} → ClientMessage V
opening = connect ddp_version (ddp_version ∷ [])

-- `ClientMessage::id`.
unfoldable pub client_id : {V : Type 0} → ClientMessage V → Option String
client_id (connect version support) = none
client_id (method id name params) = some id
client_id (sub id name params) = some id
client_id (unsub id) = some id
client_id (ping id) = id
client_id (pong id) = id

pub record UnknownMessage (V : Type 0) : Type 0 where
  pub msg : Option String
  pub rest : Map String V

pub data ServerMessage (V : Type 0) : Type 0 where
  connected : (session : String) → ServerMessage V
  failed : (version : String) → ServerMessage V
  ping : (id : Option String) → ServerMessage V
  pong : (id : Option String) → ServerMessage V
  result : (id : String) (value : Option V) (error : Option (DdpError V)) → ServerMessage V
  updated : (methods : List String) → ServerMessage V
  nosub : (id : String) (error : Option (DdpError V)) → ServerMessage V
  ready : (subs : List String) → ServerMessage V
  added : (collection id : String) (fields : Option (Map String V)) → ServerMessage V
  changed :
      (collection id : String) (fields : Option (Map String V)) (cleared : Option (List String))
      → ServerMessage V
  removed : (collection id : String) → ServerMessage V
  added_before :
      (collection id : String) (fields : Option (Map String V)) (before : Option String)
      → ServerMessage V
  moved_before : (collection id : String) (before : Option String) → ServerMessage V
  error : (reason : String) (offending_message : Option V) → ServerMessage V
  unknown : UnknownMessage V → ServerMessage V

abbrev pub modelled_tags : List String
modelled_tags =
    "connected" ∷ "failed" ∷ "ping" ∷ "pong" ∷ "result" ∷ "updated" ∷ "nosub" ∷ "ready" ∷ "added"
    ∷ "changed" ∷ "removed" ∷ "addedBefore" ∷ "movedBefore" ∷ "error" ∷ []

unfoldable pub is_malformed : {V : Type 0} → ServerMessage V → Bool
is_malformed (unknown u) = is_some_and u.msg (elem modelled_tags)
is_malformed _ = false

unfoldable pub correlation_id : {V : Type 0} → ServerMessage V → Option String
correlation_id (result id value e) = some id
correlation_id (nosub id e) = some id
correlation_id (ping id) = id
correlation_id (pong id) = id
correlation_id _ = none
