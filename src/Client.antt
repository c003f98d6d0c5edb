-- ===== src/Client.antt =====
-- src/client.rs: the configuration, the connection attempt and the write of one entry. Durations and
-- instants are nanoseconds.
use ecapplog_rust.Base.{
  ℕ, ◌+◌, ◌-◌, ◌*◌, min, max, Bool, true, false, List, [], ◌∷◌, ◌++◌, Option, none, some, length,
  take, ltb, if◌then◌else◌,
}
use ecapplog_rust.Base.Text.{Text, codes}
use ecapplog_rust.Error.{IoError, addr_not_available, Error}
use ecapplog_rust.Error
use ecapplog_rust.Record.{Record}
use ecapplog_rust.Queue.{Queue}
use ecapplog_rust.Queue
use ecapplog_rust.Proto.{Object, cmd_log, max_payload_size, fields, from_record, encode_frame}
pub mod Worker
pub mod Builder
pub mod Handle
pub mod Connecting
pub mod Duration
pub mod Shutdown
pub mod Invariant
pub mod Calm
pub mod Close
pub mod Reports
pub mod Refusing
pub mod Progress
pub mod Nested
pub mod Order
pub mod Kept
pub mod Lifecycle
pub mod Wire
mod Tests

abbrev pub millisecond : ℕ
millisecond = 1000000

abbrev pub second : ℕ
second = 1000 * millisecond

-- `on_error` is whether a callback is installed.
pub record Config : Type 0 where
  pub app_name : Text
  pub address : Text
  pub flush_on_close : Bool
  pub flush_timeout : ℕ
  pub connect_timeout : ℕ
  pub reconnect_delay : ℕ
  pub on_error : Bool

-- The calls of the callback so far, and one more.
unfoldable pub report : Config → List Error → Error → List Error
report c es e = if c.on_error then es ++ e ∷ [] else es

pub record ClientBuilder : Type 0 where
  pub app_name : Text
  pub address : Text
  pub buffer_size : ℕ
  pub flush_on_close : Bool
  pub flush_timeout : ℕ
  pub connect_timeout : ℕ
  pub reconnect_delay : ℕ
  pub on_error : Bool

abbrev pub default_address : Text
default_address = codes "127.0.0.1:13991"

abbrev pub default_app_name : Text
default_app_name = codes "ECAPPLOG-RUST"

abbrev pub default_buffer_size : ℕ
default_buffer_size = 1000

abbrev pub default_builder : ClientBuilder
default_builder = record {
  app_name = default_app_name;
  address = default_address;
  buffer_size = default_buffer_size;
  flush_on_close = true;
  flush_timeout = 5 * second;
  connect_timeout = 10 * second;
  reconnect_delay = 5 * second;
  on_error = false;
}

-- `build`: what the worker thread is started on.
unfoldable pub build : ClientBuilder → Config × Queue
build b = (
  record {
    app_name = b.app_name;
    address = b.address;
    flush_on_close = b.flush_on_close;
    flush_timeout = b.flush_timeout;
    connect_timeout = b.connect_timeout;
    reconnect_delay = b.reconnect_delay;
    on_error = b.on_error;
  },
  Queue.new b.buffer_size,
)

-- The system's answers: the socket addresses of a name, and the outcome of dialling one of them
-- within a timeout, where `none` is a connection. An address is known by its number.
pub data Resolved : Type 0 where
  found : List ℕ → Resolved
  unresolved : IoError → Resolved

pub record Network : Type 0 where
  pub to_socket_addrs : Text → Resolved
  pub dial : ℕ → ℕ → Option IoError

pub data Attempt : Type 0 where
  stream : ℕ → Attempt
  refused : Error → Attempt

-- `checked_duration_since(now).unwrap_or(ZERO)` is the difference cut off at 0.
unfoldable pub dial_timeout : Config → Option ℕ → ℕ → ℕ
dial_timeout c none now = c.connect_timeout
dial_timeout c (some deadline) now = max (min (deadline - now) c.connect_timeout) millisecond

-- The loop over the addresses; the last argument is `last_error`.
unfoldable pub dial_each : Config → Network → ℕ → List ℕ → Option IoError → Attempt
dial_each c n timeout [] none = refused (Error.connect c.address addr_not_available)
dial_each c n timeout [] (some e) = refused (Error.connect c.address e)
dial_each c n timeout (a ∷ others) last = elim (n.dial a timeout) [
  | none ↦ stream a
  | some e ↦ dial_each c n timeout others (some e)
]

unfoldable pub connect : Config → Network → Option ℕ → ℕ → Attempt
unfolding dial_timeout
connect c n flush_deadline now = elim (n.to_socket_addrs c.address) [
  | unresolved e ↦ refused (Error.resolve c.address e)
  | found addresses ↦ dial_each c n (dial_timeout c flush_deadline now) addresses none
]

-- What serde_json makes of an object, and what `write_all` comes to: all bytes, or an error after
-- some of them.
pub data Serialized : Type 0 where
  json : Text → Serialized
  unserializable : Text → Serialized

pub data WriteOutcome : Type 0 where
  complete : WriteOutcome
  broken : ℕ → IoError → WriteOutcome

pub data WriteResult : Type 0 where
  ok : WriteResult
  discard connection : Error → WriteResult

-- The bytes of a frame that reach the socket. `write_all` fails only with bytes left to write.
unfoldable pub accepted : WriteOutcome → Text → Text
accepted complete bytes = bytes
accepted (broken n e) bytes = take (min n (length bytes - 1)) bytes

unfoldable pub write_all : WriteOutcome → WriteResult
write_all complete = ok
write_all (broken n e) = connection (Error.write e)

unfoldable pub write_json : WriteOutcome → Serialized → WriteResult × Text
unfolding accepted write_all
write_json o (unserializable e) = (discard (Error.serialize e), [])
write_json o (json bytes) =
    if ltb max_payload_size (length bytes)
    then (discard (Error.payload_too_large (length bytes) max_payload_size), [])
    else (write_all o, accepted o (encode_frame cmd_log bytes []))

-- The result, and the bytes that reached the socket.
unfoldable pub write_record : (Object → Serialized) → WriteOutcome → Record → WriteResult × Text
unfolding write_json
write_record to_writer o r = write_json o (to_writer (fields (from_record r)))
