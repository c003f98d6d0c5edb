-- ===== src/Proto.antt =====
-- src/proto.rs: frames and the JSON log payload. Bytes are numbers. What serde_json makes of the
-- fields is not under this repository: it is an argument where a payload is written.
use ecapplog_rust.Base.{
  ℕ, ◌+◌, ◌*◌, ◌/◌, ◌%◌, ◌^◌, List, [], ◌∷◌, ◌++◌, length, is_nil, if◌then◌else◌,
}
use ecapplog_rust.Base.Text.{Text, codes}
use ecapplog_rust.Priority.{as_str}
use ecapplog_rust.Record.{Record}
use ecapplog_rust.Timestamp.{format_utc}
pub mod Fields

abbrev pub cmd_banner : ℕ
cmd_banner = 99

abbrev pub cmd_log : ℕ
cmd_log = 0

abbrev pub banner_prefix : Text
banner_prefix = codes "ECAPPLOG "

abbrev pub max_payload_size : ℕ
max_payload_size = 16 * 1024 * 1024

pub record LogPayload : Type 0 where
  pub time : Text
  pub priority : Text
  pub category : Text
  pub message : Text
  pub source : Text
  pub original_category : Text
  pub extra_categories : List Text
  pub color : Text
  pub bg_color : Text

unfoldable pub from_record : Record → LogPayload
from_record r = record {
  time = format_utc r.time;
  priority = as_str r.priority;
  category = r.category;
  message = r.message;
  source = r.source;
  original_category = r.original_category;
  extra_categories = r.extra_categories;
  color = r.color;
  bg_color = r.bg_color;
}

-- The values that the payload's fields have.
pub data Value : Type 0 where
  string : Text → Value
  strings : List Text → Value

abbrev pub Object : Type 0
Object = List (Text × Value)

-- `skip_serializing_if` on a text and on a list.
unfoldable pub text_field : Text → Text → Object → Object
text_field key s rest = if is_nil s then rest else (key, string s) ∷ rest

unfoldable pub list_field : Text → List Text → Object → Object
list_field key v rest = if is_nil v then rest else (key, strings v) ∷ rest

-- The object that the derived `Serialize` writes: the fields in order, under their keys.
unfoldable pub fields : LogPayload → Object
unfolding text_field list_field
fields p =
    (codes "time", string p.time)
    ∷ (codes "priority", string p.priority)
    ∷ (codes "category", string p.category)
    ∷ (codes "message", string p.message)
    ∷ text_field (codes "source") p.source (
        text_field (codes "original_category") p.original_category (
          list_field (codes "extra_categories") p.extra_categories
            (text_field (codes "color") p.color (text_field (codes "bgcolor") p.bg_color []))))

-- `(n as u32).to_be_bytes()`.
unfoldable pub to_be_bytes : ℕ → Text
to_be_bytes n =
    let w = n % 2 ^ 32 in (w / 2 ^ 24) ∷ (w / 2 ^ 16 % 256) ∷ (w / 2 ^ 8 % 256) ∷ (w % 256) ∷ []

abbrev clear : Text → Text
clear out = []

-- The new contents of the buffer `out`.
unfoldable pub encode_frame : ℕ → Text → Text → Text
unfolding to_be_bytes
encode_frame command payload out = clear out ++ command ∷ (to_be_bytes (length payload) ++ payload)

unfoldable pub banner_payload : Text → Text
banner_payload app_name = banner_prefix ++ app_name
