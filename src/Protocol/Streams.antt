-- ===== src/Protocol/Streams.antt =====
-- crates/rocketsocket-model/src/protocol.rs: what a frame says as the event of a stream. What
-- `as_str` and `as_array` of a JSON value give is an argument.
use Prim.Native.String.{len, slice, ◌++◌ as append}
use text.Mathlib.Text.{starts_with}
use text.Mathlib.TextPositions.{starts_with-append, slice-append_right, len-append}
use rocketsocket.Base.{
  String, ◌≡◌, refl, ap, Option, none, some, List, [], if◌then◌else◌, ℕ_eq, String_eq, and_then,
  Option_eq,
}
use rocketsocket.Map.{Map, get}
use rocketsocket.Protocol.{ServerMessage}

-- `str::strip_prefix`.
unfoldable pub strip_prefix : String → String → Option String
strip_prefix text prefix =
    if starts_with text prefix then some (slice text (len prefix) (len text)) else none

abbrev pub stream_prefix : String
stream_prefix = "stream-"

pub record StreamEvent (V : Type 0) : Type 0 where
  pub stream : String
  pub event_name : String
  pub args : List V

pub record Views (V : Type 0) : Type 0 where
  pub as_str : V → Option String
  pub as_array : V → Option (List V)

module _ {V : Type 0} (views : Views V) where
  -- `map_or(NO_ARGS, …)`.
  unfoldable pub args_of : Map String V → List V
  args_of fields = elim (and_then (get fields "args") views.as_array) [
    | none ↦ []
    | some args ↦ args
  ]

  unfoldable pub stream_event_of : String → Option (Map String V) → Option (StreamEvent V)
  unfolding strip_prefix args_of
  stream_event_of collection fields = and_then (strip_prefix collection stream_prefix) (λ stream.
      and_then fields (λ named.
        and_then (and_then (get named "eventName") views.as_str) (λ event_name.
          some (record { stream = stream; event_name = event_name; args = args_of named }))))

  unfoldable pub as_stream_event : ServerMessage V → Option (StreamEvent V)
  unfolding stream_event_of
  as_stream_event (ServerMessage.changed collection id fields cleared) =
      stream_event_of collection fields
  as_stream_event _ = none

strip_prefix-append : (p s : String) → strip_prefix (append p s) p ≡ some s
unfolding strip_prefix
strip_prefix-append p s =
    rw (starts_with-append p s, len-append p s) (ap some (slice-append_right p s))

-- The frame of a stream's event is read under the stream's name, the event's and its arguments.
pub stream_event_of-prefix :
    {V : Type 0} (views : Views V) (stream event_name : String) (fields : Map String V) (value : V)
    → get fields "eventName" ≡ some value
    → views.as_str value ≡ some event_name
    → stream_event_of views (append stream_prefix stream) (some fields)
      ≡ some (record { stream = stream; event_name = event_name; args = args_of views fields })
unfolding stream_event_of
stream_event_of-prefix views stream event_name fields value named is_text =
    rw (strip_prefix-append stream_prefix stream, named, is_text) refl
