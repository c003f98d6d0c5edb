-- ===== src/Examples/TracingLayer/Written.antt =====
-- examples/tracing_layer.rs: what its events become.
use ecapplog_rust.Base.{
  ℕ, suc, ◌≡◌, ◌≤◌, refl, ap, ap₂, ◌∙◌, true, List, [], ◌∷◌, Option, or_else-none, length, All,
  arith,
}
use ecapplog_rust.Base.Int.{ℤ}
use ecapplog_rust.Base.Text.{Text, codes, text_eq}
use ecapplog_rust.Record.{Record, new as new_record, source as with_source, original_category}
use ecapplog_rust.Proto.{Object}
use ecapplog_rust.Client.{Serialized, build}
use ecapplog_rust.Client.Handle.{flush}
use ecapplog_rust.Client.Worker.{Event, run}
use ecapplog_rust.Client.Close.{Sendable}
use ecapplog_rust.Crates.{Filters, Json, Registry}
use ecapplog_rust.AdapterLog.{add_module}
use ecapplog_rust.AdapterTracing
use ecapplog_rust.AdapterTracing.{Level, category_for, add_json, unwrap_or_default}
use ecapplog_rust.AdapterTracing.Layer.{
  build_layer, enabled, event_metadata, event_visitor, entry_for,
}
use ecapplog_rust.AdapterTracing.Visits.{latest, message_of, record_all-latest}
use ecapplog_rust.Examples.{config_of, first_world, IsRunOf, run-written}
use ecapplog_rust.Examples.TracingLayer.{
  builder, root, layer_builder, Call, opens, happens, calls, forwarded, entries,
}

abbrev brief : Record → Text × Text
brief r = (r.category, r.message)

abbrev pub briefs : List Record → List (Text × Text)
briefs [] = []
briefs (r ∷ rs) = brief r ∷ briefs rs

module _ (fs : Filters Level) (js : Json) (rg : Registry js.Map) where
  open rg use {Store, SpanId}

  -- The target and the message of each event.
  abbrev texts : List (Call js SpanId) → List (Text × Text)
  texts [] = []
  texts (opens id attrs ∷ cs) = texts cs
  texts (happens e ∷ cs) =
      ((event_metadata fs js rg e).target, unwrap_or_default (latest (message_of js) e.values))
      ∷ texts cs

  brief-add_json : (m : js.Map) (r : Record) → brief (add_json js m r) ≡ brief r
  unfolding add_json with_source
  brief-add_json m r = ground arith

  brief-add_module : (m : Option Text) (c : Text) (r : Record) → brief (add_module m c r) ≡ brief r
  unfolding add_module original_category
  brief-add_module m c r = ground arith

  event_message :
      (e : AdapterTracing.Event js SpanId)
      → (event_visitor fs js rg e).message ≡ latest (message_of js) e.values
  event_message e = (record_all-latest js _ e.values []).1 ∙ or_else-none _

  brief-entry_for :
      (now : ℤ) (s : Store) (e : AdapterTracing.Event js SpanId)
      → brief (entry_for fs js rg (build_layer fs (layer_builder fs)).1 now s e)
        ≡ ((event_metadata fs js rg e).target, unwrap_or_default (latest (message_of js) e.values))
  unfolding entry_for build_layer layer_builder category_for new_record
  brief-entry_for now s e =
      brief-add_json _ _
      ∙ brief-add_module _ _ _
      ∙ ap (λ o. ((event_metadata fs js rg e).target, unwrap_or_default o)) (event_message e)

  briefs-forwarded :
      (now : ℕ → ℤ) (i : ℕ) (s : Store) (cs : List (Call js SpanId))
      → briefs (forwarded fs js rg (build_layer fs (layer_builder fs)).1 now i s cs) ≡ texts cs
  unfolding forwarded enabled build_layer layer_builder
  briefs-forwarded now i s [] = refl
  briefs-forwarded now i s (opens id attrs ∷ cs) = briefs-forwarded now i _ cs
  briefs-forwarded now i s (happens e ∷ cs) =
      rw (fs.within-trace (event_metadata fs js rg e).level)
        (ap₂ ◌∷◌ (brief-entry_for (now i) s e) (briefs-forwarded now (suc i) s cs))

abbrev pub told : List (Text × Text)
told =
    (root, codes "starting up")
    ∷ (root, codes "request received")
    ∷ (root, codes "query finished")
    ∷ (root, codes "slow query")
    ∷ (root, codes "giving up")
    ∷ (root, codes "done")
    ∷ []

length-briefs : (rs : List Record) → length (briefs rs) ≡ length rs
length-briefs [] = refl
length-briefs (r ∷ rs) = omega (arith, length-briefs rs)

module _ (fs : Filters Level) (js : Json) (rg : Registry js.Map) (file : Text) (x : js.Float)
    (i j : rg.SpanId) (s : rg.Store) (now : ℕ → ℤ) where
  briefs-entries : briefs (entries fs js rg file x i j now s) ≡ told
  unfolding entries calls text_eq
  briefs-entries = briefs-forwarded fs js rg now 0 s (calls js rg.SpanId file x i j)

  -- Whatever the crates' filters, JSON values and registry are, the client is the one that the builder
  -- describes, and when the example's flush answers true, its six events have been written in their
  -- order, each in the category of its module with its text for the message. The entries become JSON
  -- within the limit.
  pub tracing_layer-written :
      (to_writer : Object → Serialized) (es : List Event)
      → IsRunOf (entries fs js rg file x i j now s) es
      → All (Sendable (config_of builder) to_writer) (entries fs js rg file x i j now s)
      → flush (run (config_of builder) to_writer (first_world builder) es) ≡ true
      → let w = run (config_of builder) to_writer (first_world builder) es in
        ((build_layer fs (layer_builder fs)).0 ≡ build builder)
        × (w.written ≡ entries fs js rg file x i j now s)
        × (briefs w.written ≡ told)
  unfolding layer_builder build_layer builder
  tracing_layer-written to_writer es r k f =
      let rs = entries fs js rg file x i j now s in
      let n : length rs ≤ 1000 = omega (arith, length-briefs rs, ap length briefs-entries) in
      let e = run-written builder to_writer rs es r n k f in (refl, e, ap briefs e ∙ briefs-entries)
