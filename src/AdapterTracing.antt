-- ===== src/AdapterTracing.antt =====
-- src/adapter_tracing.rs: the layer for `tracing`. The crates that it stands on are interfaces of
-- Crates; what it is handed by them (metadata, an event, a span's name) is what it asks of them. A
-- value set that is recorded calls the visitor once for each of its values, in order.
use ecapplog_rust.Base.{
  ℕ, suc, Bool, true, false, not, ◌&&◌, List, [], ◌∷◌, Option, none, some, map, reverse, is_nil,
  if◌then◌else◌,
}
use ecapplog_rust.Base.Int.{ℤ, pos, negsuc}
use ecapplog_rust.Base.Text.{Text, codes, text_eq, starts_with, decimal}
use ecapplog_rust.Priority.{Priority}
use ecapplog_rust.Priority
use ecapplog_rust.Record.{Record, source as with_source}
use ecapplog_rust.Client.Worker
use ecapplog_rust.Crates.{Json, Registry}
use ecapplog_rust.AdapterLog.{call_site}
pub mod Layer
pub mod Visits
pub mod Sources
pub mod Spans
pub mod Bridge
pub mod Tests

pub data Level : Type 0 where
  error warn info debug trace : Level

-- `tracing_core::Metadata`, by its accessors.
pub record Metadata : Type 0 where
  pub target : Text
  pub level : Level
  pub module_path : Option Text
  pub file : Option Text
  pub line : Option ℕ

pub data CategorySource : Type 0 where
  target : CategorySource
  fixed : Text → CategorySource
  custom : (Metadata → Text) → CategorySource

unfoldable pub category_for : CategorySource → Metadata → Text
category_for target m = m.target
category_for (fixed category) m = category
category_for (custom f) m = f m

unfoldable pub priority_for : Level → Priority
priority_for trace = Priority.trace
priority_for debug = Priority.debug
priority_for info = Priority.information
priority_for warn = Priority.warning
priority_for error = Priority.error

-- `i128::to_string`.
abbrev integer_to_string : ℤ → Text
integer_to_string (pos n) = decimal n
integer_to_string (negsuc n) = b'-' ∷ decimal (suc n)

abbrev pub message_key : Text
message_key = codes "message"

abbrev pub unwrap_or_default : Option Text → Text
unwrap_or_default none = []
unwrap_or_default (some s) = s

module _ (js : Json) where
  open js use {Value, Map, Float}

  -- The methods of `Visit`, with the values that they take. A value that is recorded by `Debug` is
  -- known by its rendering, an error by its `to_string`.
  pub data Visit : Type 0 where
    str debug_rendered error_text : Text → Visit
    i64 i128 : ℤ → Visit
    u64 u128 : ℕ → Visit
    boolean : Bool → Visit
    f64 : Float → Visit

  -- `JsonVisitor`: the fields that it fills, the message, and whether it drops the `log.` fields.
  pub record JsonVisitor : Type 0 where
    pub fields : Map
    pub message : Option Text
    pub skip_log_fields : Bool

  unfoldable pub insert : JsonVisitor → Text → Value → JsonVisitor
  insert v name value =
      if v.skip_log_fields && starts_with (codes "log.") name
      then v
      else record v { fields = js.insert name value v.fields }

  -- The two methods that can find the message.
  unfoldable pub record_text : JsonVisitor → Text → Text → JsonVisitor
  unfolding insert
  record_text v name value =
      if text_eq name message_key
      then record v { message = some value }
      else insert v name (js.string value)

  unfoldable pub record_f64 : JsonVisitor → Text → Float → JsonVisitor
  unfolding insert
  record_f64 v name value = elim (js.from_f64 value) [
    | some number ↦ insert v name number
    | none ↦ insert v name (js.string (js.float_to_string value))
  ]

  unfoldable pub visit : JsonVisitor → Text → Visit → JsonVisitor
  unfolding record_text record_f64
  visit v name (str value) = record_text v name value
  visit v name (debug_rendered rendered) = record_text v name rendered
  visit v name (error_text value) = insert v name (js.string value)
  visit v name (i64 value) = insert v name (js.from_i64 value)
  visit v name (i128 value) = insert v name (js.string (integer_to_string value))
  visit v name (u64 value) = insert v name (js.from_u64 value)
  visit v name (u128 value) = insert v name (js.string (decimal value))
  visit v name (boolean value) = insert v name (js.bool value)
  visit v name (f64 value) = record_f64 v name value

  -- `attrs.record(&mut visitor)`.
  unfoldable pub record_all : JsonVisitor → List (Text × Visit) → JsonVisitor
  record_all v [] = v
  record_all v ((name, x) ∷ xs) = record_all (visit v name x) xs

  abbrev pub visitor : Map → Bool → JsonVisitor
  visitor fields skip = record { fields = fields; message = none; skip_log_fields = skip }

  -- A span of an event's scope.
  pub record Span (SpanId : Type 0) : Type 0 where
    pub id : SpanId
    pub name : Text

  -- `tracing_core::Event` in its context: its own metadata, what `normalized_metadata` gives for it,
  -- its values, and the spans that `event_scope` finds, from the innermost one on.
  pub record Event (SpanId : Type 0) : Type 0 where
    pub own_metadata : Metadata
    pub normalized : Option Metadata
    pub values : List (Text × Visit)
    pub scope : Option (List (Span SpanId))

  abbrev pub is_normalized : Option Metadata → Bool
  is_normalized none = false
  is_normalized (some m) = true

  abbrev pub metadata_of : Option Metadata → Metadata → Metadata
  metadata_of none own = own
  metadata_of (some m) own = m

  -- What a span's own message adds to its fields.
  unfoldable pub add_message : Option Text → Map → Map
  add_message none fields = fields
  add_message (some message) fields = js.insert message_key (js.string message) fields

  unfoldable pub span_fields : List (Text × Visit) → Map
  unfolding add_message record_all visit
  span_fields attrs =
      let v = record_all (visitor js.new false) attrs in add_message v.message v.fields

  unfoldable pub add_at : Bool → Option Text → Option ℕ → Map → Map
  unfolding call_site
  add_at true (some file) line source =
      js.insert (codes "at") (js.string (call_site file line)) source
  add_at _ _ line source = source

  unfoldable pub add_fields : Map → Map → Map
  add_fields fields source =
      if not (js.is_empty fields)
      then js.insert (codes "fields") (js.object fields) source
      else source

  unfoldable pub add_spans : List Value → Map → Map
  add_spans spans source =
      if not (is_nil spans) then js.insert (codes "spans") (js.array spans) source else source

  unfoldable pub add_json : Map → Record → Record
  unfolding with_source
  add_json source entry =
      if not (js.is_empty source)
      then elim (js.to_string (js.object source)) [
        | some json ↦ with_source json entry
        | none ↦ entry
      ]
      else entry

  module _ (rg : Registry Map) where
    open rg use {Store, SpanId, extension}

    -- The object of a span, from its name and what its extensions hold.
    unfoldable pub span_object : Text → Option Map → Map
    unfolding add_fields
    span_object name none = js.insert (codes "name") (js.string name) js.new
    span_object name (some fields) =
        add_fields fields (js.insert (codes "name") (js.string name) js.new)

    -- The values of a scope from the root, the outermost span first. `from_root` turns the scope round.
    unfoldable pub span_values : Store → Option (List (Span SpanId)) → List Value
    unfolding span_object
    span_values s none = []
    span_values s (some spans) =
        map (λ sp. js.object (span_object sp.name (extension s sp.id))) (reverse spans)
