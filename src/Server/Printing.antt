-- ===== src/Server/Printing.antt =====
-- examples/mock_server.rs: the lines that are printed for an entry.
use ecapplog_rust.Base.{List, [], ◌∷◌, ◌++◌, Option, none, some, is_nil, if◌then◌else◌}
use ecapplog_rust.Base.Text.{Text, codes}
use ecapplog_rust.Timestamp.Layout.{plausible}
use ecapplog_rust.Crates.{JsonReader, parsed, malformed}
pub mod Shown

abbrev pub unwrap_or_empty : Option Text → Text
unwrap_or_empty none = []
unwrap_or_empty (some s) = s

-- The first line, from what `get` gives for the time, the priority, the category and the message.
unfoldable pub head_line : Text → Text → Text → Text → Text
unfolding plausible
head_line time priority category message =
    time
    ++ (codes " ["
        ++ (priority
            ++ (codes "] "
                ++ (category
                    ++ (codes ": "
                        ++ (message
                            ++ (if plausible time then [] else codes "  <-- BAD TIMESTAMP")))))))

abbrev pub indent : Text
indent = codes "        "

-- The line of one key, if its value is not empty, before the later lines.
unfoldable pub detail : Text → Text → List Text → List Text
detail key value rest =
    if is_nil value then rest else (indent ++ (key ++ (codes ": " ++ value))) ∷ rest

abbrev pub extra_lines : Option Text → List Text
extra_lines none = []
extra_lines (some extra) = (indent ++ (codes "extra_categories: " ++ extra)) ∷ []

-- The server's `String::from_utf8_lossy` of a payload is not looked into: the payload stands for it.
pub data Printed : Type 0 where
  lines : Text → List Text → Printed
  invalid_json : Text → Text → Printed

module _ (jr : JsonReader) where
  abbrev pub get : jr.Value → Text → Text
  get entry k = unwrap_or_empty (jr.get_str k entry)

  unfoldable pub print_value : jr.Value → Printed
  unfolding head_line detail
  print_value entry =
      lines
        (head_line (get entry (codes "time")) (get entry (codes "priority"))
          (get entry (codes "category")) (get entry (codes "message")))
        (detail (codes "source") (get entry (codes "source")) (
          detail (codes "original_category") (get entry (codes "original_category")) (
            detail (codes "color") (get entry (codes "color")) (
              detail (codes "bgcolor") (get entry (codes "bgcolor"))
                (extra_lines (jr.get_display (codes "extra_categories") entry))))))

  unfoldable pub print_entry : Text → Printed
  unfolding print_value
  print_entry payload = elim (jr.from_slice payload) [
    | parsed entry ↦ print_value entry
    | malformed e ↦ invalid_json e payload
  ]
