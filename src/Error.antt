-- ===== src/Error.antt =====
-- src/error.rs: what the worker reports. An `io::Error` of the system is known by its number, and a
-- serialisation error by its text.
use ecapplog_rust.Base.{ℕ, ◌++◌}
use ecapplog_rust.Base.Text.{Text, codes, decimal}

-- `addr_not_available` is the one that src/client.rs makes itself.
pub data IoError : Type 0 where
  os : ℕ → IoError
  addr_not_available : IoError

pub data Error : Type 0 where
  resolve connect : Text → IoError → Error
  write : IoError → Error
  serialize : Text → Error
  payload_too_large queue_full : ℕ → ℕ → Error

-- The messages. That of a system's error is an argument.
module _ (os_text : ℕ → Text) where
  unfoldable pub io_text : IoError → Text
  io_text (os n) = os_text n
  io_text addr_not_available = codes "the address resolved to no socket addresses"

  unfoldable pub display : Error → Text
  unfolding io_text
  display (resolve address e) =
      codes "could not resolve ECAppLog address `" ++ (address ++ (codes "`: " ++ io_text e))
  display (connect address e) =
      codes "could not connect to ECAppLog at `" ++ (address ++ (codes "`: " ++ io_text e))
  display (write e) = codes "could not write to ECAppLog: " ++ io_text e
  display (serialize e) = codes "could not serialise a log entry: " ++ e
  display (payload_too_large size limit) =
      codes "a log entry serialised to "
      ++ (decimal size
          ++ (codes " bytes, over the server's " ++ (decimal limit ++ codes " byte limit")))
  display (queue_full capacity total) =
      codes "log queue full ("
      ++ (decimal capacity
          ++ (codes " entries), discarded the oldest; "
              ++ (decimal total ++ codes " dropped so far")))
