-- ===== src/Examples/TracingLayer.antt =====
-- examples/tracing_layer.rs: the spans that it opens and its events, as its macros hand them to the
-- layer, and the entries that the layer makes of them. The macros are those of `tracing`: an event has
-- the module as its target and module path, and its message as the first of its values; a span has the
-- arguments of the function, and is among the spans of the events and spans inside it, which are given from the innermost on. The path of the
-- file, the ids of the two spans, the float 3.5 and the clock's readings are arguments.
use ecapplog_rust.Base.{ℕ, suc, true, false, List, [], ◌++◌, ◌∷◌, some, none, if◌then◌else◌}
use ecapplog_rust.Base.Int.{ℤ, pos}
use ecapplog_rust.Base.Text.{Text, codes}
use ecapplog_rust.Record.{Record}
use ecapplog_rust.Client.{ClientBuilder, default_builder}
use ecapplog_rust.Client.Builder
use ecapplog_rust.Client.Handle.{flush}
use ecapplog_rust.Client.Worker.{Event}
use ecapplog_rust.Crates.{Filters, Json, Registry}
use ecapplog_rust.AdapterTracing
use ecapplog_rust.AdapterTracing.{
  Level, error, warn, info, debug, Metadata, Visit, str, debug_rendered, error_text, i64, u64,
  boolean, f64, Span, message_key,
}
use ecapplog_rust.AdapterTracing.Layer.{
  TracingLayer, TracingLayerBuilder, default_layer, app_name, build_layer, enabled, on_new_span,
  event_metadata, entry_for,
}
pub mod Written
pub mod Nested

abbrev name : Text
name = codes "ECALRS-TRACING"

abbrev pub builder : ClientBuilder
unfolding Builder.app_name
builder = Builder.app_name name default_builder

unfoldable pub layer_builder : (fs : Filters Level) → TracingLayerBuilder fs
unfolding app_name
layer_builder fs = app_name fs name (default_layer fs)

abbrev pub root : Text
root = codes "tracing_layer"

abbrev metadata : Text → Level → ℕ → Metadata
metadata file level line = record {
  target = root;
  level = level;
  module_path = some root;
  file = some file;
  line = some line;
}

module _ (js : Json) where
  abbrev said : Text → Text × Visit js
  said message = (message_key, debug_rendered message)

  module _ (SpanId : Type 0) where
    -- What the subscriber calls the layer for.
    pub data Call : Type 0 where
      opens : SpanId → List (Text × Visit js) → Call
      happens : AdapterTracing.Event js SpanId → Call

    abbrev pub request : SpanId → Span js SpanId
    request i = record { id = i; name = codes "handle_request" }

    abbrev pub database : SpanId → Span js SpanId
    database j = record { id = j; name = codes "query_database" }

    abbrev pub arguments : Text → ℕ → List (Text × Visit js)
    arguments request_id attempt =
        (codes "request_id", str request_id) ∷ (codes "attempt", u64 attempt) ∷ []

    module _ (file : Text) where
      abbrev event : Level → ℕ → List (Span js SpanId) → List (Text × Visit js) → Call
      event level line scope values = happens (record {
        own_metadata = metadata file level line;
        normalized = none;
        values = values;
        scope = some scope;
      })

      abbrev outside : Level → ℕ → List (Text × Visit js) → Call
      outside level line values = happens (record {
        own_metadata = metadata file level line;
        normalized = none;
        values = values;
        scope = none;
      })

      unfoldable pub query_database : List (Span js SpanId) → List Call
      query_database scope =
          event warn 34 scope (said (codes "slow query") ∷ (codes "retries", i64 (pos 2)) ∷ [])
          ∷ event error 37 scope (
              said (codes "giving up")
              ∷ (codes "error", error_text (codes "connection reset"))
              ∷ [])
          ∷ []

      unfoldable pub handle_request : js.Float → SpanId → SpanId → Text → ℕ → List Call
      unfolding query_database
      handle_request x i j request_id attempt =
          opens i (arguments request_id attempt)
          ∷ event info 16 (request i ∷ []) (
              said (codes "request received")
              ∷ (codes "method", str (codes "GET"))
              ∷ (codes "path", str (codes "/health"))
              ∷ [])
          ∷ event debug 19 (request i ∷ []) (
              said (codes "query finished")
              ∷ (codes "rows", i64 (pos 42))
              ∷ (codes "elapsed_ms", f64 x)
              ∷ (codes "cached", boolean false)
              ∷ (codes "key", str (codes "user:1"))
              ∷ [])
          ∷ opens j []
          ∷ query_database (database j ∷ request i ∷ [])

      -- `main` between the installation and the flush.
      unfoldable pub calls : js.Float → SpanId → SpanId → List Call
      unfolding handle_request
      calls x i j =
          outside info 50 (said (codes "starting up") ∷ [])
          ∷ (handle_request x i j (codes "abc123") 2
              ++ outside info 52 (said (codes "done") ∷ (codes "shutdown", boolean true) ∷ []) ∷ [])

module _ (fs : Filters Level) (js : Json) (rg : Registry js.Map) where
  open rg use {Store, SpanId}

  -- The entries that the layer makes of the calls that it is not disabled for, at the clock's readings
  -- from `i` on.
  unfoldable pub forwarded :
      TracingLayer fs → (ℕ → ℤ) → ℕ → Store → List (Call js SpanId) → List Record
  unfolding enabled entry_for on_new_span
  forwarded l now i s [] = []
  forwarded l now i s (opens id attrs ∷ cs) =
      forwarded l now i (on_new_span fs js rg l id attrs s) cs
  forwarded l now i s (happens e ∷ cs) =
      let rest = forwarded l now (suc i) s cs in
      if enabled fs l (event_metadata fs js rg e)
      then entry_for fs js rg l (now i) s e ∷ rest
      else rest

  unfoldable pub entries : Text → js.Float → SpanId → SpanId → (ℕ → ℤ) → Store → List Record
  unfolding build_layer layer_builder forwarded calls
  entries file x i j now s =
      forwarded (build_layer fs (layer_builder fs)).1 now 0 s (calls js SpanId file x i j)
