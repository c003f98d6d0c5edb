-- ===== src/Examples/TracingLayer/Nested.antt =====
-- examples/tracing_layer.rs: the spans that the source of an entry from `query_database` shows.
use ecapplog_rust.Base.{ℕ, ◌≡◌, refl, ap, ◌∙◌, true, false, [], ◌∷◌, some, arith}
use ecapplog_rust.Base.Text.{Text, codes, text_eq}
use ecapplog_rust.Crates.{Filters, Json, Registry}
use ecapplog_rust.AdapterTracing.{
  Level, Metadata, span_fields, span_object, span_values, add_fields, visit, record_all,
}
use ecapplog_rust.AdapterTracing.Layer.{TracingLayer, build_layer, on_new_span, source_of}
use ecapplog_rust.AdapterTracing.Sources.{get-source_of}
use ecapplog_rust.Examples.TracingLayer.{layer_builder, arguments, request, database}

module _ (fs : Filters Level) (js : Json) (rg : Registry js.Map) where
  open rg use {Store, SpanId, known, same, extension}

  -- The layer of the example.
  abbrev pub layer : TracingLayer fs
  unfolding build_layer layer_builder
  layer = (build_layer fs (layer_builder fs)).1

  -- The registry's store once both functions were entered.
  abbrev pub entered : SpanId → SpanId → Text → ℕ → Store → Store
  entered i j request_id attempt s =
      on_new_span fs js rg layer j []
        (on_new_span fs js rg layer i (arguments js SpanId request_id attempt) s)

  with_fields :
      (name : Text) (m : js.Map)
      → js.is_empty m ≡ false
      → span_object js rg name (some m)
        ≡ js.insert
            (codes "fields")
            (js.object m)
            (js.insert (codes "name") (js.string name) js.new)
  unfolding span_object add_fields
  with_fields name m h = rw h refl

  with_no_fields :
      (name : Text)
      → span_object js rg name (some (span_fields js []))
        ≡ js.insert (codes "name") (js.string name) js.new
  unfolding span_object span_fields add_fields
  with_no_fields name = rw js.is_empty-new refl

  module _ (i j : SpanId) (request_id : Text) (attempt : ℕ) (s : Store) (ki : known s i ≡ true)
      (kj : known s j ≡ true) (other : same j i ≡ false) where
    abbrev args : js.Map
    args = span_fields js (arguments js SpanId request_id attempt)

    kept :
        let t = entered i j request_id attempt s in
        (extension t i ≡ some args) × (extension t j ≡ some (span_fields js []))
    unfolding on_new_span layer build_layer layer_builder
    kept =
        let q = span_fields js [] in
        let t : Store = rg.set_extension s i args in
        ground (
          arith,
          rg.known-set_extension s i j args,
          rg.extension-set_extension s i i args,
          rg.extension-set_extension t j i q,
          rg.extension-set_extension t j j q,
          rg.same_refl i,
          rg.same_refl j,
        )

    get-args :
        (js.get (codes "request_id") args ≡ some (js.string request_id))
        × (js.get (codes "attempt") args ≡ some (js.from_u64 attempt))
        × (js.is_empty args ≡ false)
    unfolding span_fields visit record_all text_eq
    get-args =
        let k = codes "request_id" in
        let n = codes "attempt" in
        let m = js.insert k (js.string request_id) js.new in
        (
          js.get-insert n k (js.from_u64 attempt) m
              ∙ js.get-insert k k (js.string request_id) js.new,
          js.get-insert n n (js.from_u64 attempt) m,
          js.is_empty-insert n (js.from_u64 attempt) m,
        )

    -- Two spans deep: once both functions were entered, the source of an event in the scope of their two
    -- spans shows both, the outermost first, each by its name, and with the arguments that it was opened
    -- with, if it has any. The registry knows the two spans, and they are different.
    pub get-spans :
        (m : Metadata) (fields : js.Map)
        → (args' : js.Map) × (js.get (codes "spans") (
              source_of fs js rg layer m fields
                (some (database js SpanId j ∷ request js SpanId i ∷ []))
                (entered i j request_id attempt s))
            ≡ some (
                js.array (
                  js.object (
                    js.insert
                      (codes "fields")
                      (js.object args')
                      (js.insert (codes "name") (js.string (codes "handle_request")) js.new))
                  ∷ js.object (js.insert (codes "name") (js.string (codes "query_database")) js.new)
                  ∷ [])))
          × (js.get (codes "request_id") args' ≡ some (js.string request_id))
          × (js.get (codes "attempt") args' ≡ some (js.from_u64 attempt))
    unfolding layer build_layer layer_builder text_eq span_values span_object add_fields
    get-spans m fields =
        let (r, a, e) = get-args in
        let (x, y) = kept in
        (
          args,
          get-source_of fs js rg layer m fields
                (some (database js SpanId j ∷ request js SpanId i ∷ []))
                (entered i j request_id attempt s) (codes "spans")
              ∙ (λ k. some (
                  js.array (
                    js.object (
                      (ap (span_object js rg (codes "handle_request")) x
                          ∙ with_fields (codes "handle_request") args e)
                        k)
                    ∷ js.object (
                        (ap (span_object js rg (codes "query_database")) y
                            ∙ with_no_fields (codes "query_database"))
                          k)
                    ∷ []))),
          r,
          a,
        )
