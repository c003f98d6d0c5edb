-- ===== src/Server/Tests.antt =====
-- Runs of the decoder on what src/proto.rs's unit tests encode, and the theorems at such inputs.
use ecapplog_rust.Base.{◌≡◌, refl, List, [], ◌∷◌, ◌++◌, Option, none, some, if◌then◌else◌}
use ecapplog_rust.Base.Int.{pos}
use ecapplog_rust.Base.Text.{Text, codes, text_eq, text_eq_refl}
use ecapplog_rust.Priority
use ecapplog_rust.Priority.{as_str}
use ecapplog_rust.Record.{Record, new, source as with_source, extra_category, color as with_color}
use ecapplog_rust.Timestamp.{format_utc}
use ecapplog_rust.Proto.{
  Value, Object, strings, cmd_banner, string, fields, from_record, encode_frame, banner_payload,
}
use ecapplog_rust.Proto.Fields.{lookup, sent, text_there, list_there, lookup-sent}
use ecapplog_rust.Crates.{JsonReader, parsed, malformed}
use ecapplog_rust.Server.Printing.Shown.{str_of, Displays, Reads}
mod Connections

banner_frame_bytes :
    encode_frame cmd_banner (banner_payload (codes "ECAPPLOG-RUST")) (7 ∷ [])
    ≡ 0x63 ∷ 0 ∷ 0 ∷ 0 ∷ 0x16 ∷ codes "ECAPPLOG ECAPPLOG-RUST"
unfolding encode_frame banner_payload
banner_frame_bytes = refl

abbrev plain : Record
unfolding new
plain = new (pos 0) Priority.information (codes "app") (codes "hello")

abbrev dressed : Record
unfolding plain with_source extra_category with_color
dressed =
    with_color (codes "#ff0000") (extra_category (codes "other") (with_source (codes "src") plain))

optional_fields_are_omitted_when_empty :
    sent plain
    ≡ (codes "time", string (format_utc (pos 0)))
      ∷ (codes "priority", string (codes "INFORMATION"))
      ∷ (codes "category", string (codes "app"))
      ∷ (codes "message", string (codes "hello"))
      ∷ []
unfolding fields from_record plain as_str
optional_fields_are_omitted_when_empty = refl

lookup-sent_example :
    (lookup (codes "time") (sent dressed) ≡ some (string (format_utc dressed.time)))
    × (lookup (codes "priority") (sent dressed) ≡ some (string (as_str dressed.priority)))
    × (lookup (codes "category") (sent dressed) ≡ some (string dressed.category))
    × (lookup (codes "message") (sent dressed) ≡ some (string dressed.message))
    × (lookup (codes "source") (sent dressed) ≡ text_there dressed.source)
    × (lookup (codes "original_category") (sent dressed) ≡ text_there dressed.original_category)
    × (lookup (codes "extra_categories") (sent dressed) ≡ list_there dressed.extra_categories)
    × (lookup (codes "color") (sent dressed) ≡ text_there dressed.color)
    × (lookup (codes "bgcolor") (sent dressed) ≡ text_there dressed.bg_color)
lookup-sent_example = lookup-sent dressed

abbrev pub two : List Text
two = codes "first" ∷ codes "second" ∷ []

abbrev display : List Text → Text
display [] = []
display (c ∷ cs) = c ++ b',' ∷ display cs

abbrev display_of : Option Value → Option Text
display_of none = none
display_of (some (string s)) = some s
display_of (some (strings v)) = some (display v)

-- A reader that knows one payload.
abbrev pub reader : Text → Object → JsonReader
reader payload object = record {
  Value = Object;
  from_slice = λ b. if text_eq b payload then parsed object else malformed (codes "expected value");
  get_str = λ k o. str_of (lookup k o);
  get_display = λ k o. display_of (lookup k o);
  array_display = display;
}

display_of-Displays :
    (payload : Text) (o : Object) (v : Option Value) → Displays (reader payload o) v (display_of v)
display_of-Displays payload o none = refl
display_of-Displays payload o (some (string s)) = tt
display_of-Displays payload o (some (strings v)) = refl

pub reader-Reads : (payload : Text) (o : Object) → Reads (reader payload o) o payload
reader-Reads payload o = record {
  value = o;
  parsed_is = rw (text_eq_refl payload) refl;
  str_is = λ k. refl;
  display_is = λ k. display_of-Displays payload o (lookup k o);
}

abbrev dressed_json : Text
dressed_json = codes "{dressed}"
