-- ===== src/Examples/Tests.antt =====
-- Runs of the examples in which a server answers and every write succeeds, and the theorems there.
use ecapplog_rust.Base.{
  ℕ, ◌≡◌, refl, ap, ◌∙◌, true, false, ◌⊎◌, some, none, List, [], ◌∷◌, ◌++◌, All, length, arith, leb,
}
use ecapplog_rust.Base.Int.{ℤ, pos}
use ecapplog_rust.Base.Text.{codes}
use ecapplog_rust.Record.{Record}
use ecapplog_rust.Queue
use ecapplog_rust.Queue.{new, push, pop, pop_from, finish}
use ecapplog_rust.Proto.{Object}
use ecapplog_rust.Client.{
  Config, Serialized, json as json_text, found, complete, connect, dial_each, write_record, build,
}
use ecapplog_rust.Client.Handle.{flush}
use ecapplog_rust.Client.Worker.{
  World, checking, Event, logs, works, start, run, step, log, work, work_at, at_reconnect,
  after_connect, at_greeting, at_checking, after_pop, after_write, report_full,
}
use ecapplog_rust.Client.Close.{Sendable}
use ecapplog_rust.Client.Kept.{entries_of, is_open}
use ecapplog_rust.Examples.{
  config_of, complaint, flush_lines, first_world, IsRunOf, example_builder,
}
use ecapplog_rust.Crates.{Filters}
use ecapplog_rust.Client.Builder.{app_name}
use ecapplog_rust.AdapterLog.{Level, error, warn, info, debug, trace, client_of}
use ecapplog_rust.AdapterTracing.Layer.{build_layer, source_of}
use ecapplog_rust.AdapterTracing.Tests.{Members, find, json, registry, ranks, empty, place}
use ecapplog_rust.Examples.TracingLayer
use ecapplog_rust.Examples.TracingLayer.Written
use ecapplog_rust.Examples.TracingLayer.Nested
use ecapplog_rust.Examples.Simple
use ecapplog_rust.Examples.LogFacade

abbrev to_writer : Object → Serialized
to_writer o = json_text (codes "{}")

all_Sendable : (c : Config) (rs : List Record) → All (Sendable c to_writer) rs
all_Sendable c [] = tt
all_Sendable c (r ∷ rs) = ((codes "{}", refl, omega arith), all_Sendable c rs)

abbrev online : Event
online = works (record {
  network = record { to_socket_addrs = λ name. found (1 ∷ []); dial = λ a t. none };
  write = complete;
  lag = 0;
  latest = 3600000000000;
})

abbrev sends : List Event → List Event
sends es = online ∷ online ∷ online ∷ online ∷ es

-- Each entry is sent before the next is logged.
abbrev sends_each : List Record → List Event
sends_each [] = []
sends_each (r ∷ rs) = logs r ∷ sends (sends_each rs)

abbrev one_by_one : List Record → List Event
one_by_one rs = online ∷ online ∷ online ∷ sends_each rs

sends_each-open :
    (rs : List Record) → (is_open (sends_each rs) ≡ true) × (entries_of (sends_each rs) ≡ rs)
sends_each-open [] = (refl, refl)
sends_each-open (r ∷ rs) = let (o, e) = sends_each-open rs in (o, ap (◌∷◌ r) e)

one_by_one-IsRunOf : (rs : List Record) → IsRunOf rs (one_by_one rs)
one_by_one-IsRunOf rs = let (o, e) = sends_each-open rs in record { open_still = o; logged = e }

-- The worker is idle on a connection, and the queue has its default capacity.
abbrev idling : World → World
idling w = record w {
  pc = checking;
  queue = record {
    state = record { items = []; busy = false; shutdown = false };
    capacity = 1000;
    dropped = 0;
  };
}

sends_one :
    (c : Config) (w : World) (r : Record) (es : List Event)
    → (u : World) × (run c to_writer (idling w) (logs r ∷ sends es) ≡ run c to_writer (idling u) es)
unfolding run step log push work work_at at_checking after_pop pop pop_from after_write write_record
    finish report_full
sends_one c w r es =
    (record w { written = w.written ++ r ∷ []; logged = w.logged ++ r ∷ []; streams = _ }, refl)

sends_each-flushed :
    (c : Config) (w : World) (rs : List Record)
    → flush (run c to_writer (idling w) (sends_each rs)) ≡ true
unfolding run flush Queue.flush
sends_each-flushed c w [] = refl
sends_each-flushed c w (r ∷ rs) =
    let (u, e) = sends_one c w r (sends_each rs) in ap flush e ∙ sends_each-flushed c u rs

connects :
    (c : Config) (es : List Event)
    → (u : World) × (run c to_writer (start (new 1000)) (online ∷ online ∷ online ∷ es)
        ≡ run c to_writer (idling u) es)
unfolding run step start new work work_at at_reconnect after_connect connect dial_each at_greeting
connects c es = (record (start (new 1000)) { streams = _ }, refl)

one_by_one-flushed :
    (c : Config) (rs : List Record)
    → flush (run c to_writer (start (new 1000)) (one_by_one rs)) ≡ true
one_by_one-flushed c rs =
    let (u, e) = connects c (sends_each rs) in ap flush e ∙ sends_each-flushed c u rs

abbrev severity : Level → ℕ
severity error = 1
severity warn = 2
severity info = 3
severity debug = 4
severity trace = 5

severity-within : (l : Level) → leb (severity l) 5 ≡ true
severity-within error = refl
severity-within warn = refl
severity-within info = refl
severity-within debug = refl
severity-within trace = refl

abbrev now : ℕ → ℤ
now i = pos i

simple-written_example :
    let w =
      run
        (config_of Simple.builder)
        to_writer
        (first_world Simple.builder)
        (one_by_one (Simple.entries now)) in
    (length (Simple.entries now) ≡ 90)
    × (Simple.last_line w ≡ codes "sent 90 entries; 0 dropped")
    × (((flush w ≡ true) × (w.written ≡ Simple.entries now) × (flush_lines (flush w) ≡ []))
        ⊎ ((flush w ≡ false) × (flush_lines (flush w) ≡ complaint ∷ [])))
unfolding first_world start new example_builder config_of build
simple-written_example =
    Simple.simple-written now to_writer (one_by_one (Simple.entries now))
      (one_by_one-IsRunOf (Simple.entries now))
      (all_Sendable (config_of Simple.builder) (Simple.entries now))

-- The levels by their number, and a filter by the highest that it lets pass.
abbrev levels : Filters Level
levels = record {
  LevelFilter = ℕ;
  within = λ l f. leb (severity l) f;
  trace = 5;
  within-trace = severity-within;
}

log_facade-written_example :
    let es = one_by_one (LogFacade.entries levels (codes "log_facade.rs") now) in
    let w = run (config_of LogFacade.builder) to_writer (first_world LogFacade.builder) es in
    (client_of (LogFacade.logger_builder levels).client (LogFacade.logger_builder levels).app_name
      ≡ build LogFacade.builder)
    × (w.written ≡ LogFacade.entries levels (codes "log_facade.rs") now)
    × (LogFacade.categories w.written ≡ LogFacade.by_module)
unfolding first_world start new app_name config_of build
log_facade-written_example =
    let rs = LogFacade.entries levels (codes "log_facade.rs") now in
    let c = config_of LogFacade.builder in
    LogFacade.log_facade-written levels (codes "log_facade.rs") now to_writer (one_by_one rs)
      (one_by_one-IsRunOf rs) (all_Sendable c rs) (one_by_one-flushed c rs)

tracing_layer-written_example :
    let rs = TracingLayer.entries ranks json registry (codes "tracing_layer.rs") 3 1 2 now empty in
    let w =
      run
        (config_of TracingLayer.builder)
        to_writer
        (first_world TracingLayer.builder)
        (one_by_one rs) in
    ((build_layer ranks (TracingLayer.layer_builder ranks)).0 ≡ build TracingLayer.builder)
    × (w.written ≡ rs)
    × (Written.briefs w.written ≡ Written.told)
unfolding first_world start new app_name config_of build
tracing_layer-written_example =
    let rs = TracingLayer.entries ranks json registry (codes "tracing_layer.rs") 3 1 2 now empty in
    let c = config_of TracingLayer.builder in
    Written.tracing_layer-written ranks json registry (codes "tracing_layer.rs") 3 1 2 empty now
      to_writer (one_by_one rs) (one_by_one-IsRunOf rs) (all_Sendable c rs)
      (one_by_one-flushed c rs)

get-spans_example :
    (m : Members) × (find (codes "spans") (
        source_of ranks json registry
          (Nested.layer ranks json registry)
          place
          []
          (some (TracingLayer.database json ℕ 2 ∷ TracingLayer.request json ℕ 1 ∷ []))
          (Nested.entered ranks json registry 1 2 (codes "abc123") 2 empty))
      ≡ some (
          json.array (
            json.object (
              json.insert
                (codes "fields")
                (json.object m)
                (json.insert (codes "name") (json.string (codes "handle_request")) []))
            ∷ json.object (json.insert (codes "name") (json.string (codes "query_database")) [])
            ∷ [])))
    × (find (codes "request_id") m ≡ some (json.string (codes "abc123")))
    × (find (codes "attempt") m ≡ some (json.from_u64 2))
get-spans_example =
    Nested.get-spans ranks json registry 1 2 (codes "abc123") 2 empty refl refl refl place []
