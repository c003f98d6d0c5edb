-- ===== src/Server/Output.antt =====
-- examples/mock_server.rs: what is printed, line by line, for standard output and standard error
-- alike. What `{:?}` makes of the lossy decoding of some bytes is an argument.
use ecapplog_rust.Base.{List, [], ◌∷◌, ◌++◌}
use ecapplog_rust.Base.Text.{Text, codes, decimal}
use ecapplog_rust.Crates.{JsonReader}
use ecapplog_rust.Server.{
  Report, named, entry, unknown_command, too_long, second_banner, bad_banner,
}
use ecapplog_rust.Server.Printing.{Printed, lines, invalid_json, print_entry}
use ecapplog_rust.Server.Connections.{
  Line, connected_to, reported, read_failed, disconnected, accept_failed, listen_address,
}

abbrev would_disconnect : Text
would_disconnect = codes "; the real server would disconnect here"

-- The first line of the program, before it accepts any connection.
unfoldable pub listening_line : List Text → Text
unfolding listen_address
listening_line args = codes "listening on " ++ listen_address args

abbrev pub connected_line : Text → Text
connected_line peer = codes "--- connected: " ++ peer

abbrev pub disconnected_line : Text → Text → Text
disconnected_line peer count =
    codes "--- disconnected: " ++ (peer ++ (codes " after " ++ (count ++ codes " entries")))

abbrev pub banner_line : Text → Text
banner_line quoted = codes "banner: app name " ++ quoted

unfoldable pub printed_lines : (Text → Text) → Printed → List Text
printed_lines debug (lines first rest) = first ∷ rest
printed_lines debug (invalid_json e payload) =
    (codes "!!! invalid JSON (" ++ (e ++ (codes "): " ++ debug payload))) ∷ []

module _ (jr : JsonReader) (debug : Text → Text) where
  unfoldable pub report_lines : Report → List Text
  unfolding printed_lines print_entry
  report_lines (named name) = banner_line (debug name) ∷ []
  report_lines (entry payload) = printed_lines debug (print_entry jr payload)
  report_lines (unknown_command other) = (codes "!!! unknown command " ++ decimal other) ∷ []
  report_lines (too_long n) =
      (codes "!!! payload of "
        ++ (decimal n ++ (codes " bytes exceeds the limit" ++ would_disconnect)))
      ∷ []
  report_lines second_banner = (codes "!!! a second banner" ++ would_disconnect) ∷ []
  report_lines bad_banner =
      (codes "!!! banner without the `ECAPPLOG ` prefix" ++ would_disconnect) ∷ []

  unfoldable pub line_lines : Line → List Text
  unfolding report_lines
  line_lines (connected_to peer) = connected_line peer ∷ []
  line_lines (reported r) = report_lines r
  line_lines (read_failed e) = (codes "read failed: " ++ e) ∷ []
  line_lines (disconnected peer count) = disconnected_line peer (decimal count) ∷ []
  line_lines (accept_failed e) = (codes "accept failed: " ++ e) ∷ []

  -- All of them, one after the other.
  unfoldable pub output : List Line → List Text
  unfolding line_lines
  output [] = []
  output (l ∷ ls) = line_lines l ++ output ls
