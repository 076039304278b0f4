-- ===== src/Realtime/Connection/Reasons.antt =====
-- crates/rocketsocket-realtime/src/connection.rs: why a socket closed, in the runner's words.
use Prim.Native.String.{String, ◌++◌}
use rocketsocket.Base.{Option, none, some}

-- `map_or_else` of `on_frame`, on the code and the reason of a close frame.
unfoldable pub close_reason : Option (String × String) → String
close_reason none = "the server sent a close frame"
close_reason (some (code, reason)) = "the server closed with " ++ code ++ ": " ++ reason

-- The argument of the next two is the `Debug` text of a duration.
unfoldable pub handshake_reason : String → String
handshake_reason budget = "the handshake did not complete within " ++ budget

unfoldable pub silence_reason : String → String
silence_reason limit = "no traffic for " ++ limit ++ "; assuming the connection is dead"

unfoldable pub socket_reason : String → String
socket_reason error = "socket error: " ++ error
