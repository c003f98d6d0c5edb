-- ===== src/Server.antt =====
-- examples/mock_server.rs: the decoder of one connection, as `handle` runs it on the chunks that it
-- reads. The offset into the buffer is the rest of the buffer here, and what is printed is a list of
-- reports. An entry's JSON is not parsed.
use ecapplog_rust.Base.{
  ℕ, zero, suc, ◌+◌, ◌*◌, ◌^◌, Bool, true, false, List, [], ◌∷◌, ◌++◌, Option, none, some, length,
  take, drop, ltb, ◌==◌, if◌then◌else◌,
}
use ecapplog_rust.Base.Text.{Text}
use ecapplog_rust.Proto.{cmd_banner, cmd_log, max_payload_size, banner_prefix}
pub mod Chunks
pub mod Stream
pub mod Printing
pub mod Connections
pub mod Output
pub mod Tests

pub data Frame : Type 0 where
  incomplete : Frame
  oversized : ℕ → Frame
  frame : ℕ → Text → Text → Frame

abbrev from_be_bytes : ℕ → ℕ → ℕ → ℕ → ℕ
from_be_bytes a b c d = a * 2 ^ 24 + b * 2 ^ 16 + c * 2 ^ 8 + d

unfoldable pub framed : ℕ → ℕ → Text → Frame
framed command n rest =
    if ltb max_payload_size n
    then oversized n
    else if ltb (length rest) n
    then incomplete
    else frame command (take n rest) (drop n rest)

unfoldable pub next_frame : Text → Frame
unfolding framed
next_frame (command ∷ a ∷ b ∷ c ∷ d ∷ rest) = framed command (from_be_bytes a b c d) rest
next_frame _ = incomplete

pub data Report : Type 0 where
  named entry : Text → Report
  unknown_command too_long : ℕ → Report
  second_banner bad_banner : Report

pub record Session : Type 0 where
  pub seen_banner : Bool
  pub count : ℕ
  pub reports : List Report
  pub closed : Bool

abbrev pub connected : Session
connected = record { seen_banner = false; count = 0; reports = []; closed = false }

abbrev say : Session → Report → Session
say s r = record s { reports = s.reports ++ r ∷ [] }

abbrev hang_up : Session → Report → Session
hang_up s r = record s { reports = s.reports ++ r ∷ []; closed = true }

-- `strip_prefix`.
unfoldable pub strip_prefix : Text → Text → Option Text
strip_prefix [] t = some t
strip_prefix (p ∷ ps) [] = none
strip_prefix (p ∷ ps) (c ∷ t) = if p == c then strip_prefix ps t else none

unfoldable pub on_banner : Session → Text → Session
unfolding strip_prefix
on_banner s payload =
    if s.seen_banner
    then hang_up s second_banner
    else (let s' = record s { seen_banner = true } in
        elim (strip_prefix banner_prefix payload) [
          | some name ↦ say s' (named name)
          | none ↦ hang_up s' bad_banner
        ])

unfoldable pub on_frame : Session → ℕ → Text → Session
unfolding on_banner
on_frame s command payload =
    if command == cmd_banner
    then on_banner s payload
    else if command == cmd_log
    then say (record s { count = s.count + 1 }) (entry payload)
    else say s (unknown_command command)

-- The decoding loop over the buffer. Each frame takes five bytes or more, so a fuel above the
-- buffer's length is enough. A connection that is closed forgets its buffer.
unfoldable pub decode : ℕ → Session → Text → Session × Text
decode zero s buffer = (s, buffer)
decode (suc fuel) s buffer = elim (next_frame buffer) [
  | incomplete ↦ (s, buffer)
  | oversized n ↦ (hang_up s (too_long n), [])
  | frame command payload rest ↦
      let s' = on_frame s command payload in if s'.closed then (s', []) else decode fuel s' rest
]

unfoldable pub read : Session × Text → Text → Session × Text
read (s, buffer) chunk =
    if s.closed then (s, buffer) else decode (suc (length (buffer ++ chunk))) s (buffer ++ chunk)

unfoldable pub handle : Session × Text → List Text → Session × Text
handle c [] = c
handle c (chunk ∷ chunks) = handle (read c chunk) chunks
