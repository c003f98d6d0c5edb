-- ===== src/AdapterTracing/Spans.antt =====
-- src/adapter_tracing.rs: the fields that the layer keeps for a span, over the hooks that are called.
use ecapplog_rust.Base.{
  true, false, List, [], ◌∷◌, ◌++◌, Option, none, some, or_else, or_else-none, or_else_assoc, ◌≡◌,
  refl, ap, ap₂, ◌∙◌, sym, arith, Option-cases, inl, inr, if◌then◌else◌, Bool-cases, All, subst,
}
use ecapplog_rust.Base.Text.{Text, text_eq}
use ecapplog_rust.Crates.{Filters, Json, Registry}
use ecapplog_rust.AdapterTracing.{
  Level, Visit, visitor, record_all, add_message, span_fields, message_key,
}
use ecapplog_rust.AdapterTracing.Layer.{TracingLayer, on_new_span, on_record}
use ecapplog_rust.AdapterTracing.Visits.{
  latest, latest-append, field_of, message_of, record_all-latest,
}

module _ (js : Json) where
  abbrev message_value : Text → Option Text → Option js.Value
  message_value k none = none
  message_value k (some t) = if text_eq message_key k then some (js.string t) else none

  -- What a span has under `k` when it is opened: its message under `message`, or the last of its
  -- fields.
  abbrev pub opening : Text → List (Text × Visit js) → Option js.Value
  opening k attrs =
      or_else (message_value k (latest (message_of js) attrs)) (latest (field_of js false k) attrs)

  get-add_message :
      (o : Option Text) (m : js.Map) (k : Text)
      → js.get k (add_message js o m) ≡ or_else (message_value k o) (js.get k m)
  unfolding add_message
  get-add_message none m k = refl
  get-add_message (some t) m k = ground (arith, js.get-insert message_key k (js.string t) m)

  get-span_fields :
      (attrs : List (Text × Visit js)) (k : Text)
      → js.get k (span_fields js attrs) ≡ opening k attrs
  unfolding span_fields
  get-span_fields attrs k =
      let v = record_all js (visitor js js.new false) attrs in
      let (f, m) = record_all-latest js (visitor js js.new false) attrs k in
      let f' =
        f
        ∙ ap (or_else (latest (field_of js false k) attrs)) (js.get-new k)
        ∙ or_else-none (latest (field_of js false k) attrs) in
      get-add_message v.message v.fields k
      ∙ ap₂ or_else (ap (message_value k) (m ∙ or_else-none (latest (message_of js) attrs))) f'

  -- The calls of the layer's hooks on spans.
  pub data Call (SpanId : Type 0) : Type 0 where
    opens records : SpanId → List (Text × Visit js) → Call SpanId

  module _ (rg : Registry js.Map) where
    open rg use {Store, SpanId, known, extension, same}

    abbrev pub OpensOther : SpanId → Call SpanId → Type 0
    OpensOther i (opens j attrs) = same j i ≡ false
    OpensOther i (records j values) = Unit

    abbrev values_of : SpanId → Call SpanId → List (Text × Visit js)
    values_of i (opens j attrs) = []
    values_of i (records j values) = if same j i then values else []

    -- What the calls record on a span, in order.
    abbrev pub recorded_on : SpanId → List (Call SpanId) → List (Text × Visit js)
    recorded_on i [] = []
    recorded_on i (c ∷ cs) = values_of i c ++ recorded_on i cs

    -- The span is known, and under `k` its fields have `o`.
    abbrev Keeps : Store → SpanId → Text → Option js.Value → Type 0
    Keeps s i k o = (known s i ≡ true) × (m : js.Map) × (extension s i ≡ some m) × (js.get k m ≡ o)

    module _ (fs : Filters Level) (l : TracingLayer fs) where
      abbrev pub call : Call SpanId → Store → Store
      call (opens i attrs) s = on_new_span fs js rg l i attrs s
      call (records i values) s = on_record fs js rg i values s

      abbrev pub run : List (Call SpanId) → Store → Store
      run [] s = s
      run (c ∷ cs) s = run cs (call c s)

      -- A record on a span leaves the other spans.
      other_record :
          (j : SpanId) (values : List (Text × Visit js)) (s : Store) (i : SpanId) (m : js.Map)
          → same j i ≡ false
          → extension s i ≡ some m
          → extension (on_record fs js rg j values s) i ≡ some m
      unfolding on_record
      other_record j values s i m b e = elim (Option-cases (extension s j)) [
        | inl n ↦ ground arith
        | inr (m', x) ↦ ground (
          arith,
          rg.extension-set_extension s j i (record_all js (visitor js m' false) values).fields,
        )
      ]

      records_known :
          (j : SpanId) (values : List (Text × Visit js)) (s : Store) (i : SpanId)
          → known s i ≡ true
          → known (on_record fs js rg j values s) i ≡ true
      unfolding on_record
      records_known j values s i kn = elim (Option-cases (extension s j)) [
        | inl n ↦ ground arith
        | inr (m', x) ↦ ground (
          arith,
          rg.known-set_extension s j i (record_all js (visitor js m' false) values).fields,
        )
      ]

      call-Keeps :
          (c : Call SpanId) (s : Store) (i : SpanId) (k : Text) (o : Option js.Value)
          → OpensOther i c
          → Keeps s i k o
          → Keeps (call c s) i k (or_else (latest (field_of js false k) (values_of i c)) o)
      unfolding on_new_span on_record
      call-Keeps (opens j attrs) s i k o h (kn, m, e, g) =
          let u = span_fields js attrs in
          (
            ground (arith, rg.known-set_extension s j i u),
            m,
            ground (arith, rg.extension-set_extension s j i u),
            g,
          )
      call-Keeps (records j values) s i k o h (kn, m, e, g) = elim (Bool-cases (same j i)) [
        | inl b ↦
            let u = (record_all js (visitor js m false) values).fields in
            (
              ground (arith, rg.same→eq j i, rg.known-set_extension s j i u),
              u,
              ground (arith, rg.same→eq j i, rg.extension-set_extension s j i u),
              (record_all-latest js (visitor js m false) values k).0
                  ∙ rw b (ap (or_else (latest (field_of js false k) values)) g),
            )
        | inr b ↦ (records_known j values s i kn, m, other_record j values s i m b e, rw b g)
      ]

      call-opens-Keeps :
          (attrs : List (Text × Visit js)) (s : Store) (i : SpanId) (k : Text)
          → l.include_spans ≡ true
          → known s i ≡ true
          → Keeps (call (opens i attrs) s) i k (opening k attrs)
      unfolding on_new_span
      call-opens-Keeps attrs s i k b kn =
          let u = span_fields js attrs in
          (
            ground (arith, rg.known-set_extension s i i u),
            u,
            ground (arith, rg.extension-set_extension s i i u, rg.same_refl i),
            get-span_fields attrs k,
          )

      run-Keeps :
          (cs : List (Call SpanId)) (s : Store) (i : SpanId) (k : Text) (o : Option js.Value)
          → All (OpensOther i) cs
          → Keeps s i k o
          → Keeps (run cs s) i k (or_else (latest (field_of js false k) (recorded_on i cs)) o)
      run-Keeps [] s i k o h v = v
      run-Keeps (c ∷ cs) s i k o (h, hs) v =
          let f = latest (field_of js false k) in
          subst (Keeps (run (c ∷ cs) s) i k)
            (or_else_assoc (f (recorded_on i cs)) (f (values_of i c)) o
              ∙ ap (λ a. or_else a o)
                  (sym (latest-append (field_of js false k) (values_of i c) (recorded_on i cs))))
            (run-Keeps cs (call c s) i k (or_else (f (values_of i c)) o) hs
              (call-Keeps c s i k o h v))

-- After a span was opened, and whatever the layer was then told of it and of other spans, the layer
-- keeps a map for it that has, under each key, the last value recorded on it under that key, or else
-- what the span was opened with: its message under `message`, and otherwise its last such field. A
-- message that is recorded later is no field. The layer includes spans, the registry knows the span,
-- and it is opened once.
pub run-opens-recorded :
    (js : Json) (rg : Registry js.Map) (fs : Filters Level) (l : TracingLayer fs) (i : rg.SpanId)
    (attrs : List (Text × Visit js)) (cs : List (Call js rg.SpanId)) (s : rg.Store) (k : Text)
    → l.include_spans ≡ true
    → rg.known s i ≡ true
    → All (OpensOther js rg i) cs
    → (m : js.Map) × (rg.extension (run js rg fs l (opens i attrs ∷ cs) s) i ≡ some m)
      × (js.get k m
          ≡ or_else (latest (field_of js false k) (recorded_on js rg i cs)) (opening js k attrs))
run-opens-recorded js rg fs l i attrs cs s k b kn h =
    let (known', m, e, g) =
      run-Keeps js rg fs l cs (call js rg fs l (opens i attrs) s) i k (opening js k attrs) h
        (call-opens-Keeps js rg fs l attrs s i k b kn) in
    (m, e, g)
