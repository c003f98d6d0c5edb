-- ===== src/AdapterLog/Entries.antt =====
-- src/adapter_log.rs: what an entry carries, and which records are forwarded.
use ecapplog_rust.Base.{
  ℕ, true, false, [], ◌∷◌, ◌++◌, Option, none, some, sym, ◌≡◌, ◌≢◌, ◌↔◌, ◌⊎◌, inl, inr, refl, arith,
  Bool-cases,
}
use ecapplog_rust.Base.Int.{ℤ}
use ecapplog_rust.Base.Text.{Text, decimal, text_eq, text_eq→eq, text_eq_false→ne}
use ecapplog_rust.Priority.{Priority, is_error, is_error_or_warning}
use ecapplog_rust.Record.{
  Record, new, source as with_source, original_category as with_original_category,
}
use ecapplog_rust.Client.{Config}
use ecapplog_rust.Client.Worker
use ecapplog_rust.Client.Worker.{World}
use ecapplog_rust.Crates.{Filters}
use ecapplog_rust.AdapterLog.{
  Level, error, warn, LogRecord, CategorySource, category_for, priority_for, call_site, add_source,
  add_module, entry_for, LogLogger, enabled, log,
}

-- Exactly the levels `warn` and `error` reach the GUI's tab for errors and warnings, only `error` is
-- an error, and different levels have different priorities.
priority_for-is_error :
    (l m : Level)
    → ((is_error_or_warning (priority_for l) ≡ true) ↔ ((l ≡ warn) ⊎ (l ≡ error)))
      × ((is_error (priority_for l) ≡ true) ↔ (l ≡ error))
      × ((priority_for l ≡ priority_for m) ↔ (l ≡ m))
unfolding is_error_or_warning priority_for
priority_for-is_error l m = ground arith

-- The text of a call site: nothing without a file, the file's path, or that, a colon and the line.
abbrev pub IsSite : Option Text → Option ℕ → Text → Type 0
IsSite none line s = s ≡ []
IsSite (some file) none s = s ≡ file
IsSite (some file) (some n) s = s ≡ file ++ b':' ∷ decimal n

-- Where an entry of this category comes from: the module path, unless the category says it already.
abbrev pub IsOrigin : Option Text → Text → Text → Type 0
IsOrigin none category s = s ≡ []
IsOrigin (some path) category s = ((path ≡ category) × (s ≡ [])) ⊎ ((path ≢ category) × (s ≡ path))

-- What an entry says of the record that it was made from.
pub record Carries (source : CategorySource) (now : ℤ) (r : LogRecord) (e : Record) : Type 0 where
  pub timed : e.time ≡ now
  pub messaged : e.message ≡ r.args
  pub filed : e.category ≡ category_for source r
  pub errors : (is_error e.priority ≡ true) ↔ (r.level ≡ error)
  pub warnings : (is_error_or_warning e.priority ≡ true) ↔ ((r.level ≡ warn) ⊎ (r.level ≡ error))
  pub sited : IsSite r.file r.line e.source
  pub from_module : IsOrigin r.module_path (category_for source r) e.original_category

-- The parts of an entry before its call site and its module path are added.
pub record Begun (now : ℤ) (p : Priority) (category args : Text) (e : Record) : Type 0 where
  timed : e.time ≡ now
  prior : e.priority ≡ p
  filed : e.category ≡ category
  messaged : e.message ≡ args

module _ (now : ℤ) (p : Priority) (category args : Text) where
  add_source-Begun :
      (file : Option Text) (line : Option ℕ)
      → let e = add_source file line (new now p category args) in
        Begun now p category args e × IsSite file line e.source × (e.original_category ≡ [])
  unfolding add_source with_source new call_site
  add_source-Begun none line =
      (record { timed = refl; prior = refl; filed = refl; messaged = refl }, refl, refl)
  add_source-Begun (some file) none =
      (record { timed = refl; prior = refl; filed = refl; messaged = refl }, refl, refl)
  add_source-Begun (some file) (some n) =
      (record { timed = refl; prior = refl; filed = refl; messaged = refl }, refl, refl)

  add_module-Begun :
      (module_path : Option Text) (e : Record)
      → Begun now p category args e
      → e.original_category ≡ []
      → let d = add_module module_path category e in
        Begun now p category args d
        × (d.source ≡ e.source)
        × IsOrigin module_path category d.original_category
  unfolding add_module with_original_category
  add_module-Begun none e b o = (b, refl, o)
  add_module-Begun (some path) e b o = elim (Bool-cases (text_eq path category)) [
    | inl h ↦ rw h (b, refl, inl (text_eq→eq path category h, o))
    | inr h ↦ rw h (
      record { timed = b.timed; prior = b.prior; filed = b.filed; messaged = b.messaged },
      refl,
      inr (λ k. text_eq_false→ne path category h (sym k), refl),
    )
  ]

entry_for-Carries :
    (source : CategorySource) (now : ℤ) (r : LogRecord)
    → Carries source now r (entry_for source now r)
unfolding entry_for
entry_for-Carries source now r =
    let category = category_for source r in
    let p = priority_for r.level in
    let (b, site, o) = add_source-Begun now p category r.args r.file r.line in
    let e = add_source r.file r.line (new now p category r.args) in
    let (b', s, origin) = add_module-Begun now p category r.args r.module_path e b o in
    let (tab, err, same) = priority_for-is_error r.level r.level in
    record {
      timed = b'.timed;
      messaged = b'.messaged;
      filed = b'.filed;
      errors = rw (b'.prior) err;
      warnings = rw (b'.prior) tab;
      sited = rw s site;
      from_module = origin;
    }

-- A record that the logger's level does not let pass leaves the client as it is. Any other is logged on
-- the client as one entry, which carries the time, the record's text, the logger's category for it,
-- the call site and, where it differs from the category, the module path; `is_error` holds of the
-- entry's priority just when the record's level is `error`, and `is_error_or_warning` just when that is
-- `warn` or `error`.
pub log-Carries :
    (fs : Filters Level) (l : LogLogger fs) (c : Config) (now : ℤ) (r : LogRecord) (w : World)
    → ((fs.within r.level l.level ≡ false) × (log fs l c now r w ≡ w))
      ⊎ ((fs.within r.level l.level ≡ true)
          × ((e : Record) × Carries l.category now r e × (log fs l c now r w ≡ Worker.log c e w)))
unfolding log enabled
log-Carries fs l c now r w = elim (Bool-cases (fs.within r.level l.level)) [
  | inl h ↦ inr (h, (entry_for l.category now r, entry_for-Carries l.category now r, rw h refl))
  | inr h ↦ inl (h, rw h refl)
]
