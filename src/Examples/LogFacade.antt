-- ===== src/Examples/LogFacade.antt =====
-- examples/log_facade.rs: the records that its macros make, and the entries that its logger makes of
-- them. The macros are those of the `log` crate: a record has the module as its target and module path,
-- and the call site; the path of the file is an argument, and so is the clock's reading for each entry.
use ecapplog_rust.Base.{
  ℕ, suc, ◌≡◌, ◌≤◌, refl, ap, ◌∙◌, true, List, [], ◌∷◌, ◌++◌, some, length, All, if◌then◌else◌,
  arith,
}
use ecapplog_rust.Base.Int.{ℤ}
use ecapplog_rust.Base.Text.{Text, codes, text_eq}
use ecapplog_rust.Record.{Record}
use ecapplog_rust.Proto.{Object}
use ecapplog_rust.Client.{ClientBuilder, Serialized, default_builder, build}
use ecapplog_rust.Client.Builder
use ecapplog_rust.Client.Handle.{flush}
use ecapplog_rust.Client.Worker.{Event, run}
use ecapplog_rust.Client.Close.{Sendable}
use ecapplog_rust.Crates.{Filters}
use ecapplog_rust.AdapterLog.{
  Level, error, warn, info, debug, trace, LogRecord, target, entry_for, LogLogger, LogLoggerBuilder,
  default_logger, build_logger, client_of, enabled, add_source, add_module, category_for,
}
use ecapplog_rust.AdapterLog.Builder.{app_name, max_level}
use ecapplog_rust.Examples.{config_of, first_world, IsRunOf, run-written}

abbrev name : Text
name = codes "ECALRS-LOG"

-- What a macro passes on.
abbrev called : Text → Text → Level → ℕ → Text → LogRecord
called file module_path level line message = record {
  target = module_path;
  level = level;
  args = message;
  file = some file;
  line = some line;
  module_path = some module_path;
}

abbrev root : Text
root = codes "log_facade"

abbrev storage : Text
storage = codes "log_facade::storage"

abbrev http : Text
http = codes "log_facade::http"

abbrev connect : Text → List LogRecord
connect file =
    called file storage debug 13 (codes "opening a connection")
    ∷ called file storage error 14 (codes "connection refused")
    ∷ []

abbrev serve : Text → List LogRecord
serve file =
    called file http info 20 (codes "listening on port 8080")
    ∷ called file http warn 21 (codes "no TLS certificate configured")
    ∷ []

unfoldable pub records : Text → List LogRecord
records file = called file root trace 37 (codes "starting up") ∷ (serve file ++ connect file)

-- The client that the logger builds for itself.
abbrev pub builder : ClientBuilder
unfolding Builder.app_name
builder = Builder.app_name name default_builder

module _ (fs : Filters Level) where
  unfoldable pub logger_builder : LogLoggerBuilder fs
  unfolding app_name max_level
  logger_builder = max_level fs fs.trace (app_name fs name (default_logger fs))

  -- The entries of the records that the logger forwards, at the clock's readings from `i` on.
  unfoldable pub forwarded : LogLogger fs → (ℕ → ℤ) → ℕ → List LogRecord → List Record
  unfolding enabled entry_for
  forwarded l now i [] = []
  forwarded l now i (r ∷ rs) =
      let rest = forwarded l now (suc i) rs in
      if enabled fs l r.level then entry_for l.category (now i) r ∷ rest else rest

  unfoldable pub entries : Text → (ℕ → ℤ) → List Record
  unfolding logger_builder build_logger forwarded records
  entries file now = forwarded (build_logger fs logger_builder).1 now 0 (records file)

-- Each record as an entry, whatever its level.
abbrev all_of : (ℕ → ℤ) → ℕ → List LogRecord → List Record
all_of now i [] = []
all_of now i (r ∷ rs) = entry_for target (now i) r ∷ all_of now (suc i) rs

forwarded_all :
    (fs : Filters Level) (now : ℕ → ℤ) (i : ℕ) (rs : List LogRecord)
    → forwarded fs (build_logger fs (logger_builder fs)).1 now i rs ≡ all_of now i rs
unfolding forwarded enabled build_logger logger_builder
forwarded_all fs now i [] = refl
forwarded_all fs now i (r ∷ rs) =
    rw (fs.within-trace r.level)
      (ap (◌∷◌ (entry_for target (now i) r)) (forwarded_all fs now (suc i) rs))

entries-all :
    (fs : Filters Level) (file : Text) (now : ℕ → ℤ)
    → entries fs file now ≡ all_of now 0 (records file)
unfolding entries
entries-all fs file now = forwarded_all fs now 0 (records file)

abbrev pub categories : List Record → List Text
categories [] = []
categories (r ∷ rs) = r.category ∷ categories rs

abbrev pub by_module : List Text
by_module = root ∷ http ∷ http ∷ storage ∷ storage ∷ []

module _ (file : Text) (now : ℕ → ℤ) where
  five_records : length (all_of now 0 (records file)) ≡ 5
  unfolding records
  five_records = refl

  by_module_lem : categories (all_of now 0 (records file)) ≡ by_module
  unfolding records entry_for add_source add_module text_eq category_for
  by_module_lem = refl

-- Whatever the facade's filters are, all five records of the example reach the client, each in the
-- category of its module, in the order of the calls; and when the example's flush answers true, they
-- have been written, in this order. The entries become JSON within the limit.
pub log_facade-written :
    (fs : Filters Level) (file : Text) (now : ℕ → ℤ) (to_writer : Object → Serialized)
    (es : List Event)
    → IsRunOf (entries fs file now) es
    → All (Sendable (config_of builder) to_writer) (entries fs file now)
    → flush (run (config_of builder) to_writer (first_world builder) es) ≡ true
    → let w = run (config_of builder) to_writer (first_world builder) es in
      (client_of (logger_builder fs).client (logger_builder fs).app_name ≡ build builder)
      × (w.written ≡ entries fs file now)
      × (categories w.written ≡ by_module)
unfolding logger_builder client_of builder
log_facade-written fs file now to_writer es r s f =
    let all = entries-all fs file now in
    let n : length (entries fs file now) ≤ 1000 =
      omega (arith, ap length all, five_records file now) in
    let e = run-written builder to_writer (entries fs file now) es r n s f in
    (refl, e, ap categories (e ∙ all) ∙ by_module_lem file now)
