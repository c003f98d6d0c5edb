-- ===== src/AdapterTracing/Sources.antt =====
-- src/adapter_tracing.rs: the object that an event's source is the JSON of.
use ecapplog_rust.Base.{
  ℕ, Bool, true, List, [], Option, none, some, or_else, ◌≡◌, arith, if◌then◌else◌, is_nil,
}
use ecapplog_rust.Base.Text.{Text, codes, text_eq, text_eq→eq}
use ecapplog_rust.Crates.{Filters, Json, Registry}
use ecapplog_rust.AdapterLog.{call_site}
use ecapplog_rust.AdapterTracing.{Level, Metadata, Span, add_at, add_fields, add_spans, span_values}
use ecapplog_rust.AdapterTracing.Layer.{TracingLayer, source_of}

module _ (js : Json) where
  -- The value under `k` when it is the value that stands under `key`.
  abbrev under : Text → Text → Option js.Value → Option js.Value
  under key k o = if text_eq key k then o else none

  abbrev pub at_value : Bool → Option Text → Option ℕ → Option js.Value
  at_value true (some file) line = some (js.string (call_site file line))
  at_value _ _ line = none

  abbrev pub fields_value : js.Map → Option js.Value
  fields_value fields = if js.is_empty fields then none else some (js.object fields)

  abbrev pub spans_value : List js.Value → Option js.Value
  spans_value spans = if is_nil spans then none else some (js.array spans)

  get-add_at :
      (b : Bool) (file : Option Text) (line : Option ℕ) (m : js.Map) (k : Text)
      → js.get k (add_at js b file line m)
        ≡ or_else (under (codes "at") k (at_value b file line)) (js.get k m)
  unfolding add_at
  get-add_at true (some file) line m k =
      ground (arith, js.get-insert (codes "at") k (js.string (call_site file line)) m)
  get-add_at b file line m k = ground arith

  get-add_fields :
      (fields m : js.Map) (k : Text)
      → js.get k (add_fields js fields m)
        ≡ or_else (under (codes "fields") k (fields_value fields)) (js.get k m)
  unfolding add_fields
  get-add_fields fields m k = ground (arith, js.get-insert (codes "fields") k (js.object fields) m)

  get-add_spans :
      (spans : List js.Value) (m : js.Map) (k : Text)
      → js.get k (add_spans js spans m)
        ≡ or_else (under (codes "spans") k (spans_value spans)) (js.get k m)
  unfolding add_spans
  get-add_spans spans m k = ground (arith, js.get-insert (codes "spans") k (js.array spans) m)

-- Under each key the source has what the layer puts there, or nothing: the call site, the event's
-- fields as an object, and the spans as an array. So whatever the names and values of the fields, they
-- do not reach the layer's own keys.
pub get-source_of :
    (fs : Filters Level) (js : Json) (rg : Registry js.Map) (l : TracingLayer fs) (m : Metadata)
    (fields : js.Map) (scope : Option (List (Span js rg.SpanId))) (s : rg.Store) (k : Text)
    → js.get k (source_of fs js rg l m fields scope s) ≡ (
        if text_eq (codes "at") k
        then at_value js l.include_call_site m.file m.line
        else if text_eq (codes "fields") k
        then fields_value js fields
        else if text_eq (codes "spans") k
        then spans_value js (if l.include_spans then span_values js rg s scope else [])
        else none)
unfolding source_of
get-source_of fs js rg l m fields scope s k = ground (
  arith,
  js.get-new k,
  get-add_at js l.include_call_site m.file m.line js.new k,
  get-add_fields js fields (add_at js l.include_call_site m.file m.line js.new) k,
  get-add_spans js (if l.include_spans then span_values js rg s scope else [])
      (add_fields js fields (add_at js l.include_call_site m.file m.line js.new)) k,
  text_eq→eq (codes "at") k,
  text_eq→eq (codes "fields") k,
  text_eq→eq (codes "spans") k,
)
