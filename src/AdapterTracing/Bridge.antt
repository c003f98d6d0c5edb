-- ===== src/AdapterTracing/Bridge.antt =====
-- src/adapter_tracing.rs beside src/adapter_log.rs: a record of the `log` facade that reaches the
-- layer by way of `tracing-log`.
use ecapplog_rust.Base.{
  ℕ, Bool, true, false, ◌||◌, List, [], ◌∷◌, Option, none, some, or_else, ◌≡◌, refl, ap, ap₂, ◌∙◌,
  sym, arith, Option-cases, inl, inr, Bool-cases, All,
}
use ecapplog_rust.Base.Int.{ℤ}
use ecapplog_rust.Base.Text.{Text, codes, text_eq, starts_with}
use ecapplog_rust.Record.{
  Record, new, source as with_source, original_category as with_original_category,
}
use ecapplog_rust.Crates.{Filters, Json, Registry}
use ecapplog_rust.AdapterLog
use ecapplog_rust.AdapterLog.{LogRecord, call_site, add_source, add_module}
use ecapplog_rust.AdapterTracing.{
  Level, error, warn, info, debug, trace, Metadata, category_for, priority_for, Visit, f64, Span,
  JsonVisitor, insert, record_text, visit, visitor, record_all, Event, add_json, unwrap_or_default,
  metadata_of,
}
use ecapplog_rust.AdapterTracing.Layer.{TracingLayer, source_of, event_visitor, entry_for}
use ecapplog_rust.AdapterTracing.Visits.{
  latest, message_of, is_some, record_all-latest, record_f64-insert,
}
use ecapplog_rust.AdapterTracing.Sources.{at_value, fields_value, get-source_of}

-- The level and the metadata that `normalized_metadata` recovers.
abbrev pub recovered_level : AdapterLog.Level → Level
recovered_level AdapterLog.error = error
recovered_level AdapterLog.warn = warn
recovered_level AdapterLog.info = info
recovered_level AdapterLog.debug = debug
recovered_level AdapterLog.trace = trace

abbrev pub recovered : LogRecord → Metadata
recovered r = record {
  target = r.target;
  level = recovered_level r.level;
  module_path = r.module_path;
  file = r.file;
  line = r.line;
}

abbrev pub without_source : Record → Record
without_source e = record e { source = [] }

add_source-without :
    (f : Option Text) (line : Option ℕ) (e : Record)
    → without_source (add_source f line e) ≡ without_source e
unfolding add_source with_source
add_source-without none line e = refl
add_source-without (some f) line e = refl

add_module-without :
    (p : Option Text) (name : Text) (e : Record)
    → without_source (add_module p name e) ≡ add_module p name (without_source e)
unfolding add_module with_original_category
add_module-without none name e = refl
add_module-without (some path) name e = elim (Bool-cases (text_eq path name)) [
  | inl h ↦ rw h refl
  | inr h ↦ rw h refl
]

priority_for-recovered :
    (l : AdapterLog.Level) → priority_for (recovered_level l) ≡ AdapterLog.priority_for l
unfolding priority_for AdapterLog.priority_for
priority_for-recovered AdapterLog.error = refl
priority_for-recovered AdapterLog.warn = refl
priority_for-recovered AdapterLog.info = refl
priority_for-recovered AdapterLog.debug = refl
priority_for-recovered AdapterLog.trace = refl

module _ (js : Json) where
  add_json-without : (m : js.Map) (e : Record) → without_source (add_json js m e) ≡ without_source e
  unfolding add_json with_source
  add_json-without m e = elim (Bool-cases (js.is_empty m)) [
    | inl b ↦ rw b refl
    | inr b ↦ elim (Option-cases (js.to_string (js.object m))) [
      | inl h ↦ rw (b, h) refl
      | inr (json, h) ↦ rw (b, h) refl
    ]
  ]

  -- The values of a bridged event: the message, and fields whose names begin with `log.`.
  abbrev pub Bridged : Text × Visit js → Type 0
  Bridged (name, x) =
      (is_some js (message_of js (name, x)) || starts_with (codes "log.") name) ≡ true

  visit-fields :
      (v : JsonVisitor js) (name : Text) (x : Visit js)
      → v.skip_log_fields ≡ true
      → Bridged (name, x)
      → ((visit js v name x).fields ≡ v.fields) × ((visit js v name x).skip_log_fields ≡ true)
  unfolding visit record_text insert
  visit-fields v name (f64 x) s b = ground (arith, record_f64-insert js v name x)
  visit-fields v name x s b = ground arith

  record_all-fields :
      (v : JsonVisitor js) (xs : List (Text × Visit js))
      → v.skip_log_fields ≡ true
      → All Bridged xs
      → (record_all js v xs).fields ≡ v.fields
  unfolding record_all
  record_all-fields v [] s h = refl
  record_all-fields v ((name, x) ∷ xs) s (b, h) =
      let (f, s') = visit-fields v name x s b in record_all-fields (visit js v name x) xs s' h ∙ f

-- An entry without its source, from the metadata, the category and the message.
abbrev bare : ℤ → Metadata → Text → Text → Record
bare now m name message =
    add_module m.module_path name (without_source (new now (priority_for m.level) name message))

entry_for-bare :
    (fs : Filters Level) (js : Json) (rg : Registry js.Map) (l : TracingLayer fs) (now : ℤ)
    (s : rg.Store) (e : Event js rg.SpanId)
    → let m = metadata_of js e.normalized e.own_metadata in
      without_source (entry_for fs js rg l now s e)
      ≡ bare now m
          (category_for l.category m)
          (unwrap_or_default (event_visitor fs js rg e).message)
unfolding entry_for
entry_for-bare fs js rg l now s e =
    let m = metadata_of js e.normalized e.own_metadata in
    let v = event_visitor fs js rg e in
    let name = category_for l.category m in
    let start = new now (priority_for m.level) name (unwrap_or_default v.message) in
    add_json-without js (source_of fs js rg l m v.fields e.scope s)
      (add_module m.module_path name start)
    ∙ add_module-without m.module_path name start

log_entry_for-bare :
    (source : AdapterLog.CategorySource) (now : ℤ) (r : LogRecord)
    → without_source (AdapterLog.entry_for source now r)
      ≡ bare now (recovered r) (AdapterLog.category_for source r) r.args
unfolding AdapterLog.entry_for
log_entry_for-bare source now r =
    let name = AdapterLog.category_for source r in
    let e = new now (AdapterLog.priority_for r.level) name r.args in
    add_module-without r.module_path name (add_source r.file r.line e)
    ∙ ap (add_module r.module_path name) (add_source-without r.file r.line e)
    ∙ ap (λ p. add_module r.module_path name (without_source (new now p name r.args)))
        (sym (priority_for-recovered r.level))

-- An event in which the bridge carries the record.
abbrev pub bridged_event :
    (js : Json) (SpanId : Type 0)
    → Metadata
    → LogRecord
    → List (Text × Visit js)
    → Option (List (Span js SpanId))
    → Event js SpanId
bridged_event js SpanId own r values scope = record {
  own_metadata = own;
  normalized = some (recovered r);
  values = values;
  scope = scope;
}

-- The source that `LogLogger` gives an entry with a call site, as the value of a key.
abbrev pub as_value : (js : Json) → Bool → Option Text → Record → Option js.Value
as_value js true (some file) e = some (js.string e.source)
as_value js _ _ e = none

add_module-source :
    (p : Option Text) (name : Text) (e : Record) → (add_module p name e).source ≡ e.source
unfolding add_module with_original_category
add_module-source none name e = refl
add_module-source (some path) name e = elim (Bool-cases (text_eq path name)) [
  | inl h ↦ rw h refl
  | inr h ↦ rw h refl
]

add_source-as_value :
    (js : Json) (b : Bool) (file : Option Text) (line : Option ℕ) (p : Option Text) (name : Text)
    (e : Record)
    → at_value js b file line ≡ as_value js b file (add_module p name (add_source file line e))
unfolding add_source with_source
add_source-as_value js true none line p name e = refl
add_source-as_value js true (some f) line p name e =
    ap (λ t. some (js.string t)) (sym (add_module-source p name (with_source (call_site f line) e)))
add_source-as_value js false file line p name e = refl

-- A record of the `log` facade that reaches the layer by way of the bridge gives the same entry as
-- it gives through a `LogLogger` that chooses the same category, but for the source; the call site
-- is under `at` what `LogLogger` makes the whole source, if call sites are included; and none of the
-- bridge's fields is under `fields`. The bridge's event has the record's metadata recovered, the
-- record's text as its message, and otherwise only fields whose names begin with `log.`.
pub entry_for-Bridged :
    (fs : Filters Level) (js : Json) (rg : Registry js.Map) (l : TracingLayer fs)
    (source : AdapterLog.CategorySource) (now : ℤ) (r : LogRecord) (s : rg.Store) (own : Metadata)
    (values : List (Text × Visit js)) (scope : Option (List (Span js rg.SpanId)))
    → latest (message_of js) values ≡ some r.args
    → All (Bridged js) values
    → category_for l.category (recovered r) ≡ AdapterLog.category_for source r
    → let e = bridged_event js rg.SpanId own r values scope in
      let entry = entry_for fs js rg l now s e in
      let object = source_of fs js rg l (recovered r) (event_visitor fs js rg e).fields scope s in
      (without_source entry ≡ without_source (AdapterLog.entry_for source now r))
      × (js.get (codes "at") object
          ≡ as_value js l.include_call_site r.file (AdapterLog.entry_for source now r))
      × (js.get (codes "fields") object ≡ none)
unfolding AdapterLog.entry_for text_eq
entry_for-Bridged fs js rg l source now r s own values scope hm hb hc =
    let e = bridged_event js rg.SpanId own r values scope in
    let v = visitor js js.new true in
    let fields = (record_all js v values).fields in
    (
      entry_for-bare fs js rg l now s e
          ∙ ap₂ (bare now (recovered r)) hc (
              ap unwrap_or_default
                ((record_all-latest js v values []).1 ∙ ap (λ o. or_else o none) hm))
          ∙ sym (log_entry_for-bare source now r),
      get-source_of fs js rg l (recovered r) fields scope s (codes "at")
          ∙ add_source-as_value js l.include_call_site r.file r.line r.module_path
              (AdapterLog.category_for source r)
              (new now (AdapterLog.priority_for r.level) (AdapterLog.category_for source r) r.args),
      get-source_of fs js rg l (recovered r) fields scope s (codes "fields")
          ∙ ap (fields_value js) (record_all-fields js v values refl hb)
          ∙ rw js.is_empty-new refl,
    )
