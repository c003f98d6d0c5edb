-- ===== src/Client/Wire/Terminal.antt =====
-- src/proto.rs and src/client.rs against examples/mock_server.rs: what is printed for a connection.
use ecapplog_rust.Base.{
  ◌≡◌, refl, sym, ap, ap₂, ◌∙◌, List, [], ◌∷◌, ◌++◌, append_assoc, map, Option, All, length,
  length-map,
}
use ecapplog_rust.Base.Text.{Text, decimal}
use ecapplog_rust.Record.{Record}
use ecapplog_rust.Proto.{Object, banner_payload}
use ecapplog_rust.Crates.{JsonReader}
use ecapplog_rust.Client.{Serialized}
use ecapplog_rust.Client.Wire.Steps.{payload_of}
use ecapplog_rust.Client.Wire.Printed.{IsReadable, map-print_entry}
use ecapplog_rust.Server.{next_frame, incomplete, entry}
use ecapplog_rust.Server.Chunks.{concat}
use ecapplog_rust.Server.Stream.{stream, Short}
use ecapplog_rust.Server.Printing.{Printed, print_entry}
use ecapplog_rust.Server.Printing.Shown.{shown}
use ecapplog_rust.Server.Connections.{
  ReadResult, got, Line, reported, disconnected, peer_name, accepted, serve, HasBytes, Ends,
  serve-stream,
}
use ecapplog_rust.Server.Output.{
  connected_line, banner_line, disconnected_line, printed_lines, report_lines, line_lines, output,
}

-- The lines of several entries.
abbrev pub entries_lines : (Text → Text) → List Printed → List Text
entries_lines debug [] = []
entries_lines debug (p ∷ ps) = printed_lines debug p ++ entries_lines debug ps

module _ (jr : JsonReader) (debug : Text → Text) where
  output-entries :
      (ps : List Text) (rest : List Line)
      → output jr debug (map reported (map entry ps) ++ rest)
        ≡ entries_lines debug (map (print_entry jr) ps) ++ output jr debug rest
  unfolding output line_lines report_lines
  output-entries [] rest = refl
  output-entries (p ∷ ps) rest =
      ap (λ l. printed_lines debug (print_entry jr p) ++ l) (output-entries ps rest)
      ∙ sym (append_assoc (printed_lines debug (print_entry jr p)) _ _)

-- The terminal of the mock server shows, for a client that sends its banner and the JSON of its
-- entries, and goes, whether it closes or the connection is reset: that it connected, its name, for
-- each entry in order its time, priority, category and message and a line for each other part that is
-- there, and how many entries it sent. This holds however its bytes are cut into reads, and a last
-- frame that is cut off shows nothing. The banner and all payloads are within the limit, the server's
-- parser reads back the JSON of the entries, and their times can be printed.
pub output-stream :
    (jr : JsonReader) (debug : Text → Text) (to_writer : Object → Serialized) (peer : Option Text)
    (app_name : Text) (rs : List Record) (tail chunk : Text) (chunks : List Text) (end : ReadResult)
    (after : List ReadResult)
    → Short (banner_payload app_name)
    → All Short (map (payload_of to_writer) rs)
    → All (IsReadable jr to_writer) rs
    → next_frame tail ≡ incomplete
    → concat (chunk ∷ chunks) ≡ stream app_name (map (payload_of to_writer) rs) ++ tail
    → All HasBytes (chunk ∷ chunks)
    → Ends end
    → output jr debug (serve (accepted peer (map got (chunk ∷ chunks) ++ end ∷ after)))
      ≡ connected_line (peer_name peer)
        ∷ banner_line (debug app_name)
        ∷ (entries_lines debug (map (shown jr) rs)
            ++ disconnected_line (peer_name peer) (decimal (length rs)) ∷ [])
unfolding output line_lines report_lines
output-stream jr debug to_writer peer app_name rs tail chunk chunks end after b short h t e k x =
    let ps = map (payload_of to_writer) rs in
    ap (output jr debug) (serve-stream peer app_name ps tail chunk chunks end after b short t e k x)
    ∙ ap (λ l. connected_line (peer_name peer) ∷ banner_line (debug app_name) ∷ l)
        (output-entries jr debug ps (disconnected (peer_name peer) (length ps) ∷ [])
          ∙ ap₂
              (λ l n. entries_lines debug l ++ disconnected_line (peer_name peer) (decimal n) ∷ [])
              (map-print_entry jr to_writer rs h) (length-map (payload_of to_writer) rs))
