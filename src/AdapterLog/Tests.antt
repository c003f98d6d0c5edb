-- ===== src/AdapterLog/Tests.antt =====
-- Runs that follow the unit tests of src/adapter_log.rs, and the theorems at concrete records.
use ecapplog_rust.Base.{
  ℕ, true, false, List, [], ◌∷◌, Option, none, some, ◌≡◌, ◌⊎◌, refl, leb, if◌then◌else◌,
}
use ecapplog_rust.Base.Int.{pos}
use ecapplog_rust.Base.Text.{codes, text_eq, decimal}
use ecapplog_rust.Priority.{as_str}
use ecapplog_rust.Record.{Record}
use ecapplog_rust.Queue
use ecapplog_rust.Client.{Config, default_builder, build, Serialized, unserializable}
use ecapplog_rust.Proto.{Object}
use ecapplog_rust.Client.Worker.{World, start}
use ecapplog_rust.Client.Worker
use ecapplog_rust.Crates.{Filters, Facade}
use ecapplog_rust.AdapterLog.{
  Level, error, warn, info, debug, trace, LogRecord, target, fixed, priority_for, entry_for,
  LogLogger, LogLoggerBuilder, build_logger, default_logger, log,
}
use ecapplog_rust.AdapterLog.Entries.{Carries, log-Carries}
use ecapplog_rust.AdapterLog.Builder.{init, max_level, init-once}

-- Levels filtered by their rank.
abbrev rank : Level → ℕ
rank error = 1
rank warn = 2
rank info = 3
rank debug = 4
rank trace = 5

rank-within : (l : Level) → leb (rank l) 5 ≡ true
rank-within error = refl
rank-within warn = refl
rank-within info = refl
rank-within debug = refl
rank-within trace = refl

abbrev ranks : Filters Level
ranks = record {
  LevelFilter = ℕ;
  within = λ l f. leb (rank l) f;
  trace = 5;
  within-trace = rank-within;
}

abbrev warnings : LogLogger ranks
warnings = record { level = 2; category = fixed (codes "app"); flush_timeout = 0 }

abbrev event : Level → LogRecord
event l = record {
  target = codes "db";
  level = l;
  args = codes "hello";
  file = some (codes "main.rs");
  line = some 12;
  module_path = some (codes "db::pool");
}

abbrev events : List LogRecord
events = event warn ∷ event debug ∷ event error ∷ []

abbrev settings : Config
unfolding build
settings = (build default_builder).0

abbrev unwritable : Object → Serialized
unwritable o = unserializable []

abbrev empty : World
empty = start (Queue.new 4)

level_mapping_uses_the_protocol_spelling :
    (as_str (priority_for trace) ≡ codes "TRACE")
    × (as_str (priority_for info) ≡ codes "INFORMATION")
    × (as_str (priority_for warn) ≡ codes "WARNING")
unfolding as_str priority_for
level_mapping_uses_the_protocol_spelling = (refl, refl, refl)

call_site_of_an_entry : (entry_for target (pos 0) (event info)).source ≡ codes "main.rs:12"
unfolding entry_for text_eq decimal
call_site_of_an_entry = refl

-- A warning, which the logger lets pass.
log-Carries_example :
    ((ranks.within warn warnings.level ≡ false)
      × (log ranks warnings settings (pos 0) (event warn) empty ≡ empty))
    ⊎ ((ranks.within warn warnings.level ≡ true)
        × ((e : Record) × Carries warnings.category (pos 0) (event warn) e
            × (log ranks warnings settings (pos 0) (event warn) empty
                ≡ Worker.log settings e empty)))
log-Carries_example = log-Carries ranks warnings settings (pos 0) (event warn) empty

-- A facade that holds the logger and the level.
abbrev Installation : Type 0
Installation = Option (LogLogger ranks) × ℕ

abbrev set_boxed_logger : LogLogger ranks → Installation → Option Installation
set_boxed_logger l (none, f) = some (some l, f)
set_boxed_logger l (some k, f) = none

set_boxed_logger-none :
    (l : LogLogger ranks) (s : Installation)
    → s.0 ≡ none
    → (t : Installation) × (set_boxed_logger l s ≡ some t) × (t.0 ≡ some l)
set_boxed_logger-none l (none, f) h = ((some l, f), refl, refl)
set_boxed_logger-none l (some k, f) h = cc

set_boxed_logger-some :
    (l k : LogLogger ranks) (s : Installation) → s.0 ≡ some k → set_boxed_logger l s ≡ none
set_boxed_logger-some l k (none, f) h = cc
set_boxed_logger-some l k (some k', f) h = refl

abbrev facade : Facade (LogLogger ranks) ℕ
facade = record {
  State = Installation;
  installed = λ s. s.0;
  global_level = λ s. s.1;
  set_boxed_logger = set_boxed_logger;
  set_max_level = λ f s. (s.0, f);
  first = set_boxed_logger-none;
  later = set_boxed_logger-some;
  installed-set_max_level = λ f s. refl;
  global_level-set_max_level = λ f s. refl;
}

abbrev quiet : LogLoggerBuilder ranks
unfolding max_level
quiet = max_level ranks 2 (default_logger ranks)

init-once_example :
    (t : Installation) × (init ranks facade quiet (none, 0) ≡ some t)
    × (t.0 ≡ some (build_logger ranks quiet).1)
    × (log ranks (build_logger ranks quiet).1 settings (pos 0) (event info) empty ≡ (
        if leb (rank info) t.1
        then Worker.log settings (entry_for target (pos 0) (event info)) empty
        else empty))
    × (init ranks facade (default_logger ranks) t ≡ none)
unfolding quiet
init-once_example =
    init-once ranks facade quiet (default_logger ranks) (none, 0) settings (pos 0) (event info)
      empty refl
