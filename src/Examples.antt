-- ===== src/Examples.antt =====
-- examples/: the programs that log through a client, and what they print about it.
use ecapplog_rust.Base.{
  ℕ, Bool, true, List, [], ◌∷◌, ◌++◌, map, if◌then◌else◌, ◌≡◌, ◌≤◌, sym, subst, ap, ◌∙◌, All,
  length, arith,
}
use ecapplog_rust.Base.Text.{Text, codes}
use ecapplog_rust.Error.{display}
use ecapplog_rust.Record.{Record}
use ecapplog_rust.Client.{Config, Serialized, ClientBuilder, default_builder, build}
use ecapplog_rust.Client.Builder.{app_name, on_error}
use ecapplog_rust.Client.Handle.{flush}
use ecapplog_rust.Client.Worker.{World, Event, start, run}
use ecapplog_rust.Client.Close.{Sendable}
use ecapplog_rust.Queue.{new}
use ecapplog_rust.Proto.{Object}
use ecapplog_rust.Client.Kept.{entries_of, is_open, run-start-kept, flush-written}
pub mod Simple
pub mod Colors
pub mod LogFacade
pub mod TracingLayer
mod Tests

-- The client of an example, with a callback.
unfoldable pub example_builder : Text → ClientBuilder
unfolding app_name on_error
example_builder name = on_error (app_name name default_builder)

-- What the worker of a client is started on.
unfoldable pub config_of : ClientBuilder → Config
unfolding build
config_of b = (build b).0

unfoldable pub first_world : ClientBuilder → World
unfolding build start new
first_world b = start (build b).1

abbrev pub complaint : Text
complaint = codes "ecapplog: could not deliver everything within 5s -- is the GUI running?"

-- What is printed about a flush that is over.
unfoldable pub flush_lines : Bool → List Text
flush_lines flushed = if flushed then [] else complaint ∷ []

-- The lines on standard error: what the callback prints of each error, and then the flush's.
unfoldable pub error_lines : (ℕ → Text) → World → List Text
unfolding display flush_lines flush
error_lines os_text w =
    map (λ e. codes "ecapplog: " ++ display os_text e) w.reported ++ flush_lines (flush w)

-- A run up to the answer of the flush: the program's entries are logged in their order, and the clock
-- and the worker come between in any way.
pub record IsRunOf (rs : List Record) (es : List Event) : Type 0 where
  pub open_still : is_open es ≡ true
  pub logged : entries_of es ≡ rs

module _ (b : ClientBuilder) (to_writer : Object → Serialized) (rs : List Record)
    (es : List Event) where
  abbrev last : World
  last = run (config_of b) to_writer (first_world b) es

  abbrev Sends : List Record → Type 0
  Sends = All (Sendable (config_of b) to_writer)

  few : IsRunOf rs es → length rs ≤ b.buffer_size → length (entries_of es) ≤ b.buffer_size
  few r h = omega (arith, ap length r.logged)

  -- A program with at most as many entries as its queue has room for loses none.
  pub run-dropped : IsRunOf rs es → length rs ≤ b.buffer_size → Sends rs → last.queue.dropped ≡ 0
  unfolding first_world build
  run-dropped r h s =
      (run-start-kept (config_of b) to_writer b.buffer_size es r.open_still (few r h)
        (subst Sends (sym r.logged) s)).1

  pub run-written :
      IsRunOf rs es → length rs ≤ b.buffer_size → Sends rs → flush last ≡ true → last.written ≡ rs
  unfolding first_world build flush
  run-written r h s f =
      flush-written (config_of b) to_writer b.buffer_size es r.open_still (few r h)
        (subst Sends (sym r.logged) s) f
      ∙ r.logged
