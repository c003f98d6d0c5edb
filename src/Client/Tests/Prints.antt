-- ===== src/Client/Tests/Prints.antt =====
-- src/client.rs with examples/mock_server.rs: a run whose entries the server prints, and what its
-- terminal shows of a connection.
use ecapplog_rust.Base.{◌≡◌, refl, List, [], ◌∷◌, ◌++◌, some, length, map, arith}
use ecapplog_rust.Base.Int.{div_euclid, rem_euclid}
use ecapplog_rust.Priority
use ecapplog_rust.Base.Text.{Text, codes, decimal}
use ecapplog_rust.Record.{Record, new as new_record}
use ecapplog_rust.Queue.{new}
use ecapplog_rust.Timestamp.{format_utc, total_millis, civil_from_days}
use ecapplog_rust.Crates.{JsonReader}
use ecapplog_rust.Proto.{from_record, fields, encode_frame, banner_payload}
use ecapplog_rust.Proto.Fields.{sent}
use ecapplog_rust.Server.Printing.{print_entry}
use ecapplog_rust.Server.Printing.Shown.{shown}
use ecapplog_rust.Server.{next_frame}
use ecapplog_rust.Server.Stream.{stream}
use ecapplog_rust.Server.Connections.{got, connection_reset, peer_name, accepted, serve, by_reset}
use ecapplog_rust.Server.Output.{connected_line, banner_line, disconnected_line, output}
use ecapplog_rust.Client.Wire.Terminal.{entries_lines, output-stream}
use ecapplog_rust.Server.Tests.{reader, reader-Reads}
use ecapplog_rust.Client.{build}
use ecapplog_rust.Client.Worker.{start, run}
use ecapplog_rust.Client.Wire.Carried.{received}
use ecapplog_rust.Client.Wire.Steps.{payload_of}
use ecapplog_rust.Client.Wire.Printed.{IsReadable, run-start-printed}
use ecapplog_rust.Client.Tests.{settings, entry, to_writer, history, second_connection}

-- Both entries of the run have the same payload.
abbrev payload : Text
payload = payload_of to_writer (entry 0)

abbrev parser : JsonReader
parser = reader payload (sent (entry 0))

first-IsReadable : IsReadable parser to_writer (entry 0)
unfolding new_record div_euclid total_millis civil_from_days
first-IsReadable = (reader-Reads payload (sent (entry 0)), (omega arith, refl, omega arith))

second-IsReadable : IsReadable parser to_writer (entry 1)
unfolding new_record div_euclid total_millis civil_from_days from_record format_utc
second-IsReadable = (reader-Reads payload (sent (entry 0)), (omega arith, refl, omega arith))

run-start-printed_example :
    let w = run settings to_writer (start (new 10)) history in
    map (print_entry parser) (received w.streams) ≡ map (shown parser) w.written
unfolding settings build banner_payload
run-start-printed_example =
    run-start-printed settings to_writer parser 10 history (omega arith)
      (rw second_connection (first-IsReadable, (second-IsReadable, tt)))

-- `{:?}` of a text with nothing to escape.
abbrev in_quotes : Text → Text
in_quotes s = b'"' ∷ (s ++ b'"' ∷ [])

abbrev both : List Record
both = entry 0 ∷ entry 1 ∷ []

abbrev bytes : Text
bytes = stream (codes "demo") (map (payload_of to_writer) both)

output-stream_example :
    output parser in_quotes (
      serve (
        accepted
          (some (codes "local"))
          (map got (bytes ∷ (0 ∷ 0 ∷ []) ∷ []) ++ connection_reset ∷ [])))
    ≡ connected_line (peer_name (some (codes "local")))
      ∷ banner_line (in_quotes (codes "demo"))
      ∷ (entries_lines in_quotes (map (shown parser) both)
          ++ disconnected_line (peer_name (some (codes "local"))) (decimal (length both)) ∷ [])
unfolding banner_payload encode_frame next_frame new_record from_record format_utc fields decimal
    rem_euclid Priority.as_str
output-stream_example =
    output-stream parser in_quotes to_writer (some (codes "local")) (codes "demo") both (0 ∷ 0 ∷ [])
      bytes ((0 ∷ 0 ∷ []) ∷ []) connection_reset [] (omega arith) (omega arith, (omega arith, tt))
      (first-IsReadable, (second-IsReadable, tt)) refl refl (refl, (refl, tt)) by_reset
