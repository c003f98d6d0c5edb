-- ===== src/Client/Wire/Printed.antt =====
-- src/client.rs with examples/mock_server.rs: what the server prints for the connections.
use ecapplog_rust.Base.{ℕ, ◌≡◌, refl, ap, ap₂, ◌∙◌, List, [], ◌∷◌, map, All}
use ecapplog_rust.Record.{Record}
use ecapplog_rust.Queue.{new}
use ecapplog_rust.Timestamp.Layout.{IsPrintable}
use ecapplog_rust.Crates.{JsonReader}
use ecapplog_rust.Proto.{Object, banner_payload}
use ecapplog_rust.Proto.Fields.{sent}
use ecapplog_rust.Server.Printing.{print_entry}
use ecapplog_rust.Server.Printing.Shown.{Reads, shown, print_entry-shown}
use ecapplog_rust.Server.Stream.{Short}
use ecapplog_rust.Client.{Config, Serialized}
use ecapplog_rust.Client.Worker.{Event, start, run}
use ecapplog_rust.Client.Wire.Carried.{received}
use ecapplog_rust.Client.Wire.Steps.{payload_of}
use ecapplog_rust.Client.Wire.Delivery.{run-start-received}

-- The server's parser reads back what serde_json made of the entry, and its year can be printed.
abbrev pub IsReadable : JsonReader → (Object → Serialized) → Record → Type 0
IsReadable jr to_writer r = Reads jr (sent r) (payload_of to_writer r) × IsPrintable r.time

pub map-print_entry :
    (jr : JsonReader) (to_writer : Object → Serialized) (rs : List Record)
    → All (IsReadable jr to_writer) rs
    → map (print_entry jr) (map (payload_of to_writer) rs) ≡ map (shown jr) rs
map-print_entry jr to_writer [] h = refl
map-print_entry jr to_writer (r ∷ rs) ((w, p), h) =
    ap₂ ◌∷◌ (print_entry-shown jr r (payload_of to_writer r) w p)
      (map-print_entry jr to_writer rs h)

-- After any interleaving of the callers, the clock and the worker, and however connects and writes
-- came out, what the mock server prints for the bytes of the connections is, for exactly the written
-- entries in their order, the entry's time, priority, category and message and a line for each other
-- part that is there. The banner is within the limit, the server's parser reads back the JSON of the
-- written entries, and their times can be printed.
pub run-start-printed :
    (c : Config) (to_writer : Object → Serialized) (jr : JsonReader) (n : ℕ) (es : List Event)
    → Short (banner_payload c.app_name)
    → All (IsReadable jr to_writer) (run c to_writer (start (new n)) es).written
    → let w = run c to_writer (start (new n)) es in
      map (print_entry jr) (received w.streams) ≡ map (shown jr) w.written
run-start-printed c to_writer jr n es b h =
    let w = run c to_writer (start (new n)) es in
    ap (map (print_entry jr)) (run-start-received c to_writer n es b)
    ∙ map-print_entry jr to_writer w.written h
