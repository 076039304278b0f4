-- ===== src/Realtime/Session/Tests.antt =====
-- A session that has sent its login call, and the replies to it.
use rocketsocket.Base.{ℕ, ◌≡◌, refl, ◌≢◌, ◌↔◌, ◌⊎◌, none, some, ℕ_eq, String_eq, Option_eq}
use rocketsocket.Protocol.{ServerMessage, DdpError, string}
use rocketsocket.Realtime.Session.{
  Session, authenticating, ready, fatally_closed, new, connect, handle, expect_login, dispatch,
  login_reply,
}
use rocketsocket.Realtime.Session.Steps.{
  Reach, Lawful, here, next, opens, receives, logs_in, Reach-Lawful,
}
use rocketsocket.Realtime.Session.Replies.{LogsIn, FailsWith, ready_by_login, fatal_iff}

abbrev waiting : Session
waiting = record {
  phase = authenticating;
  proposed_version = "1";
  session_id = some "s";
  login_call = some "c0";
}

abbrev granted : ServerMessage ℕ
granted = ServerMessage.result "c0" none none

abbrev refusal : DdpError ℕ
refusal = record {
  error = string "403";
  reason = some "User not found";
  message = none;
  error_type = none;
  is_client_safe = none;
  details = none;
}

abbrev refused : ServerMessage ℕ
refused = ServerMessage.result "c0" none (some refusal)

-- The login of a new session, call by call.
logged_in : Reach ℕ (new "1") (handle waiting granted).0
unfolding new connect handle dispatch expect_login rocketsocket.Protocol.is_malformed
logged_in =
    next
      (next (next (next here opens) (receives (ServerMessage.connected "s"))) (logs_in "c0" refl))
      (receives granted)

granted_ready : (handle waiting granted).0.phase ≡ ready
unfolding handle dispatch login_reply rocketsocket.Protocol.is_malformed
granted_ready = refl

still_waiting : waiting.phase ≢ fatally_closed
still_waiting h = cc

Reach-Lawful_example : Lawful (handle waiting granted).0
Reach-Lawful_example = Reach-Lawful "1" logged_in

ready_by_login_example : (waiting.phase ≡ ready) ⊎ LogsIn waiting granted
ready_by_login_example = ready_by_login waiting granted granted_ready

fatal_iff_example :
    ((handle waiting refused).0.phase ≡ fatally_closed) ↔ FailsWith (handle waiting refused).1
fatal_iff_example = fatal_iff waiting refused still_waiting
