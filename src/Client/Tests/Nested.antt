-- ===== src/Client/Tests/Nested.antt =====
-- src/client.rs: a callback that logs an entry when it is told of an error, once the client is closed.
use ecapplog_rust.Base.{ℕ, ◌≡◌, refl, List, [], ◌∷◌, none}
use ecapplog_rust.Error.{Error}
use ecapplog_rust.Record.{Record}
use ecapplog_rust.Queue.{new, request_shutdown}
use ecapplog_rust.Client.Worker.{World, Event, logs, closes, start, run, step, close}
use ecapplog_rust.Client.Nested.{log_nested, log_nested-down}
use ecapplog_rust.Client.Tests.{watched, to_writer, entry, works_for}

abbrev complains : Error → List Record
complains e = entry 7 ∷ []

abbrev ended : World
ended = run watched to_writer (start (new 1)) (closes ∷ [])

-- The worker takes steps, and another caller logs.
abbrev meanwhile : ℕ → List Event
meanwhile depth = works_for 2 (logs (entry depth) ∷ [])

log_nested-down_example :
    log_nested watched to_writer complains meanwhile 100 ended (entry 1) ≡ none
unfolding run step close request_shutdown start new
log_nested-down_example =
    log_nested-down watched to_writer complains meanwhile 100 ended (entry 1)
      (λ capacity total e. cc e) refl
