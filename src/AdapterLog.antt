-- ===== src/AdapterLog.antt =====
-- src/adapter_log.rs: the logger behind the `log` facade. The facade is another crate: its level
-- filter comes with the comparison of a level with it, and its record is what the source asks of one.
use ecapplog_rust.Base.{ℕ, ◌*◌, Bool, not, ◌∷◌, ◌++◌, Option, none, some, if◌then◌else◌}
use ecapplog_rust.Base.Int.{ℤ}
use ecapplog_rust.Base.Text.{Text, text_eq, decimal}
use ecapplog_rust.Priority.{Priority}
use ecapplog_rust.Priority
use ecapplog_rust.Record.{
  Record, new, source as with_source, original_category as with_original_category,
}
use ecapplog_rust.Queue.{Queue}
use ecapplog_rust.Client.{Config, default_builder, build, second}
use ecapplog_rust.Client.Worker
use ecapplog_rust.Crates.{Filters}
use ecapplog_rust.Client.Worker.{World}
pub mod Entries
pub mod Builder
mod Tests

pub data Level : Type 0 where
  error warn info debug trace : Level

-- `log::Record`, by its accessors.
pub record LogRecord : Type 0 where
  pub target : Text
  pub level : Level
  pub args : Text
  pub file : Option Text
  pub line : Option ℕ
  pub module_path : Option Text

pub data CategorySource : Type 0 where
  target : CategorySource
  fixed : Text → CategorySource
  custom : (LogRecord → Text) → CategorySource

unfoldable pub category_for : CategorySource → LogRecord → Text
category_for target r = r.target
category_for (fixed category) r = category
category_for (custom f) r = f r

unfoldable pub priority_for : Level → Priority
priority_for trace = Priority.trace
priority_for debug = Priority.debug
priority_for info = Priority.information
priority_for warn = Priority.warning
priority_for error = Priority.error

unfoldable pub call_site : Text → Option ℕ → Text
call_site file (some line) = file ++ b':' ∷ decimal line
call_site file none = file

unfoldable pub add_source : Option Text → Option ℕ → Record → Record
unfolding call_site with_source
add_source none line r = r
add_source (some file) line r = with_source (call_site file line) r

unfoldable pub add_module : Option Text → Text → Record → Record
unfolding with_original_category
add_module none category r = r
add_module (some path) category r =
    if not (text_eq path category) then with_original_category path r else r

-- The entry that `log` builds at the time `now`.
unfoldable pub entry_for : CategorySource → ℤ → LogRecord → Record
unfolding category_for priority_for add_source add_module new
entry_for source now r =
    let category = category_for source r in
    add_module r.module_path category
      (add_source r.file r.line (new now (priority_for r.level) category r.args))

unfoldable pub named_client : Option Text → Config × Queue
unfolding build
named_client none = build default_builder
named_client (some app_name) = build (record default_builder { app_name = app_name })

unfoldable pub client_of : Option (Config × Queue) → Option Text → Config × Queue
unfolding named_client
client_of (some client) app_name = client
client_of none app_name = named_client app_name

module _ (fs : Filters Level) where
  open fs use {LevelFilter, within, trace as trace_filter}

  pub record LogLogger : Type 0 where
    pub level : LevelFilter
    pub category : CategorySource
    pub flush_timeout : ℕ

  -- A given client is known by what its worker runs on.
  pub record LogLoggerBuilder : Type 0 where
    pub client : Option (Config × Queue)
    pub app_name : Option Text
    pub level : LevelFilter
    pub category : CategorySource
    pub flush_timeout : ℕ

  abbrev pub default_logger : LogLoggerBuilder
  default_logger = record {
    client = none;
    app_name = none;
    level = trace_filter;
    category = target;
    flush_timeout = 5 * second;
  }

  unfoldable pub build_logger : LogLoggerBuilder → (Config × Queue) × LogLogger
  unfolding client_of
  build_logger b = (
    client_of b.client b.app_name,
    record { level = b.level; category = b.category; flush_timeout = b.flush_timeout },
  )

  unfoldable pub enabled : LogLogger → Level → Bool
  enabled l level = within level l.level

  -- `Log::log` through a client.
  unfoldable pub log : LogLogger → Config → ℤ → LogRecord → World → World
  unfolding enabled entry_for
  log l c now r w =
      if not (enabled l r.level) then w else Worker.log c (entry_for l.category now r) w
