-- ===== src/AdapterTracing/Layer.antt =====
-- src/adapter_tracing.rs: the builder, and the layer's hooks. The fields that the layer keeps for a
-- span stand in the registry's store, which the hooks take and return.
use ecapplog_rust.Base.{Bool, true, false, not, List, [], Option, none, some, if◌then◌else◌}
use ecapplog_rust.Base.Int.{ℤ}
use ecapplog_rust.Base.Text.{Text}
use ecapplog_rust.Record.{Record, new as new_record}
use ecapplog_rust.Queue.{Queue}
use ecapplog_rust.Queue
use ecapplog_rust.Client.{Config}
use ecapplog_rust.Client.Worker
use ecapplog_rust.Client.Worker.{World}
use ecapplog_rust.Crates.{Filters, Json, Registry}
use ecapplog_rust.AdapterLog.{add_module, client_of}
use ecapplog_rust.AdapterTracing.{
  Level, Metadata, CategorySource, target, fixed, custom, category_for, priority_for, Visit,
  visitor, record_all, Event, is_normalized, metadata_of, span_fields, add_at, add_fields,
  add_spans, add_json, span_values, Span, JsonVisitor, unwrap_or_default,
}

module _ (fs : Filters Level) where
  open fs use {LevelFilter}

  pub record TracingLayer : Type 0 where
    pub level : LevelFilter
    pub category : CategorySource
    pub include_spans : Bool
    pub include_call_site : Bool

  -- A given client is known by what its worker runs on.
  pub record TracingLayerBuilder : Type 0 where
    pub client : Option (Config × Queue)
    pub app_name : Option Text
    pub level : LevelFilter
    pub category : CategorySource
    pub include_spans : Bool
    pub include_call_site : Bool

  abbrev pub default_layer : TracingLayerBuilder
  default_layer = record {
    client = none;
    app_name = none;
    level = fs.trace;
    category = target;
    include_spans = true;
    include_call_site = true;
  }

  unfoldable client : Config × Queue → TracingLayerBuilder → TracingLayerBuilder
  client c b = record b { client = some c }

  unfoldable pub app_name : Text → TracingLayerBuilder → TracingLayerBuilder
  app_name name b = record b { app_name = some name }

  unfoldable max_level : LevelFilter → TracingLayerBuilder → TracingLayerBuilder
  max_level level b = record b { level = level }

  unfoldable category : Text → TracingLayerBuilder → TracingLayerBuilder
  category name b = record b { category = fixed name }

  unfoldable category_fn : (Metadata → Text) → TracingLayerBuilder → TracingLayerBuilder
  category_fn f b = record b { category = custom f }

  unfoldable include_spans : Bool → TracingLayerBuilder → TracingLayerBuilder
  include_spans on b = record b { include_spans = on }

  unfoldable include_call_site : Bool → TracingLayerBuilder → TracingLayerBuilder
  include_call_site on b = record b { include_call_site = on }

  unfoldable pub build_layer : TracingLayerBuilder → (Config × Queue) × TracingLayer
  unfolding client_of
  build_layer b = (
    client_of b.client b.app_name,
    record {
      level = b.level;
      category = b.category;
      include_spans = b.include_spans;
      include_call_site = b.include_call_site;
    },
  )

  unfoldable pub enabled : TracingLayer → Metadata → Bool
  enabled l m = fs.within m.level l.level

  unfoldable pub max_level_hint : TracingLayer → Option LevelFilter
  max_level_hint l = some l.level

  -- What `flush` answers when its wait is over.
  unfoldable pub flush : World → Bool
  flush w = Queue.flush w.queue

  module _ (js : Json) (rg : Registry js.Map) where
    open rg use {Store, SpanId, known, extension, set_extension}

    unfoldable pub on_new_span : TracingLayer → SpanId → List (Text × Visit js) → Store → Store
    unfolding span_fields
    on_new_span l id attrs s =
        if not l.include_spans
        then s
        else if not (known s id)
        then s
        else set_extension s id (span_fields js attrs)

    -- The message that the visitor finds is dropped.
    unfoldable pub on_record : SpanId → List (Text × Visit js) → Store → Store
    unfolding record_all
    on_record id values s = if not (known s id) then s else elim (extension s id) [
      | none ↦ s
      | some fields ↦ set_extension s id (record_all js (visitor js fields false) values).fields
    ]

    abbrev pub event_metadata : Event js SpanId → Metadata
    event_metadata e = metadata_of js e.normalized e.own_metadata

    -- The object that becomes the entry's source, from the event's fields.
    unfoldable pub source_of :
        TracingLayer → Metadata → js.Map → Option (List (Span js SpanId)) → Store → js.Map
    unfolding add_at add_fields add_spans span_values
    source_of l m fields scope s =
        add_spans js (if l.include_spans then span_values js rg s scope else [])
          (add_fields js fields (add_at js l.include_call_site m.file m.line js.new))

    abbrev pub event_visitor : Event js SpanId → JsonVisitor js
    event_visitor e = record_all js (visitor js js.new (is_normalized js e.normalized)) e.values

    -- The entry that `on_event` builds at the time `now`.
    unfoldable pub entry_for : TracingLayer → ℤ → Store → Event js SpanId → Record
    unfolding category_for priority_for source_of add_module add_json new_record record_all
    entry_for l now s e =
        let m = event_metadata e in
        let v = event_visitor e in
        let name = category_for l.category m in
        add_json js (source_of l m v.fields e.scope s) (
          add_module m.module_path name
            (new_record now (priority_for m.level) name (unwrap_or_default v.message)))

    unfoldable pub on_event : TracingLayer → Config → ℤ → Store → Event js SpanId → World → World
    unfolding entry_for
    on_event l c now s e w = Worker.log c (entry_for l now s e) w
