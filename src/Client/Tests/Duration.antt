-- ===== src/Client/Tests/Duration.antt =====
-- src/client.rs: a close with an address that has two black-holed socket addresses.
use ecapplog_rust.Base.{ℕ, ◌*◌, ◌-◌, ◌≤◌, max, refl, [], ◌∷◌, some, arith}
use ecapplog_rust.Queue.{new, push, request_shutdown}
use ecapplog_rust.Client.{millisecond, build, complete}
use ecapplog_rust.Client.Worker.{World, start, Outcome, logs, closes, run, step, log, close}
use ecapplog_rust.Client.Duration.{connect_takes, connect_takes-bounded}
use ecapplog_rust.Client.Tests.{settings, entry, to_writer, dead, clock_end}

abbrev waits : ℕ → ℕ → ℕ
waits a t = t

abbrev closed : World
unfolding run start new step log push close request_shutdown
closed = run settings to_writer (start (new 10)) (logs (entry 0) ∷ closes ∷ [])

abbrev silent : Outcome
silent = record { network = dead; write = complete; lag = 7; latest = clock_end }

-- Under a deadline that is nearer than the connect timeout.
connect_takes-bounded_example :
    (connect_takes settings dead waits (some 9) 7 ≤ 2 * max (9 - 7) millisecond)
    × (connect_takes settings dead waits (some 9) 7 ≤ 2 * max settings.connect_timeout millisecond)
unfolding settings build
connect_takes-bounded_example =
    connect_takes-bounded settings dead waits 9 7 (1 ∷ 1 ∷ []) refl (λ a t. omega arith)
