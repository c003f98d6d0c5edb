-- ===== src/AdapterLog/Builder.antt =====
-- src/adapter_log.rs: the setters of `LogLoggerBuilder`, the installation as the global logger, and
-- the flush.
use ecapplog_rust.Base.{
  if◌then◌else◌, sym, inl, inr, Bool-cases, refl, ℕ, Option, none, some, ◌≡◌, ap, ◌∙◌,
}
use ecapplog_rust.Base.Text.{Text}
use ecapplog_rust.Queue.{Queue}
use ecapplog_rust.Client.{Config}
use ecapplog_rust.Client.Worker
use ecapplog_rust.Client.Worker.{World}
use ecapplog_rust.Base.Int.{ℤ}
use ecapplog_rust.Crates.{Filters, Facade}
use ecapplog_rust.AdapterLog.{
  Level, LogRecord, fixed, custom, LogLogger, LogLoggerBuilder, build_logger, enabled, log,
  entry_for, default_logger,
}

module _ (fs : Filters Level) where
  open fs use {LevelFilter}

  unfoldable client : Config × Queue → LogLoggerBuilder fs → LogLoggerBuilder fs
  client c b = record b { client = some c }

  unfoldable pub app_name : Text → LogLoggerBuilder fs → LogLoggerBuilder fs
  app_name name b = record b { app_name = some name }

  unfoldable pub max_level : LevelFilter → LogLoggerBuilder fs → LogLoggerBuilder fs
  max_level level b = record b { level = level }

  unfoldable category : Text → LogLoggerBuilder fs → LogLoggerBuilder fs
  category name b = record b { category = fixed name }

  unfoldable category_fn : (LogRecord → Text) → LogLoggerBuilder fs → LogLoggerBuilder fs
  category_fn f b = record b { category = custom f }

  unfoldable flush_timeout : ℕ → LogLoggerBuilder fs → LogLoggerBuilder fs
  flush_timeout d b = record b { flush_timeout = d }

  module _ (facade : Facade (LogLogger fs) LevelFilter) where
    open facade use {State, installed, global_level, set_boxed_logger, set_max_level}

    -- What follows the `?`; `none` is the error of a logger that is there already.
    abbrev raise : LevelFilter → Option State → Option State
    raise level none = none
    raise level (some s) = some (set_max_level level s)

    unfoldable pub init : LogLoggerBuilder fs → State → Option State
    unfolding build_logger
    init b s = raise b.level (set_boxed_logger (build_logger fs b).1 s)

    -- `LogLogger::init`.
    unfoldable pub init_default : State → Option State
    unfolding init
    init_default s = init (default_logger fs) s

-- A logger forwards a record just where the level passes the logger's filter.
log-within :
    (fs : Filters Level) (l : LogLogger fs) (c : Config) (now : ℤ) (r : LogRecord) (w : World)
    → log fs l c now r w
      ≡ (if fs.within r.level l.level then Worker.log c (entry_for l.category now r) w else w)
unfolding log enabled
log-within fs l c now r w = elim (Bool-cases (fs.within r.level l.level)) [
  | inl h ↦ rw h refl
  | inr h ↦ rw h refl
]

-- The first installation succeeds: the global logger is the one that the builder describes, and the
-- global filter lets a record through exactly where that logger forwards it, so that a caller who
-- asks the filter first loses nothing. Every later installation, whatever its builder, fails.
pub init-once :
    (fs : Filters Level) (facade : Facade (LogLogger fs) fs.LevelFilter)
    → (b later : LogLoggerBuilder fs) (s : facade.State) (c : Config) (now : ℤ) (r : LogRecord)
      (w : World)
    → facade.installed s ≡ none
    → (t : facade.State) × (init fs facade b s ≡ some t)
      × (facade.installed t ≡ some (build_logger fs b).1)
      × (log fs (build_logger fs b).1 c now r w ≡ (
          if fs.within r.level (facade.global_level t)
          then Worker.log c (entry_for b.category now r) w
          else w))
      × (init fs facade later t ≡ none)
unfolding init build_logger
init-once fs facade b later s c now r w h =
    let l = (build_logger fs b).1 in
    let (t, e, i) = facade.first l s h in
    let k = facade.installed-set_max_level b.level t ∙ i in
    let u = facade.later (build_logger fs later).1 l (facade.set_max_level b.level t) k in
    let g = facade.global_level-set_max_level b.level t in
    (
      facade.set_max_level b.level t,
      ap (raise fs facade b.level) e,
      k,
      log-within fs l c now r w
          ∙ ap (λ f. if fs.within r.level f then Worker.log c (entry_for b.category now r) w else w)
              (sym g),
      ap (raise fs facade later.level) u,
    )
