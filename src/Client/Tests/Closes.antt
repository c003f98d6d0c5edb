-- ===== src/Client/Tests/Closes.antt =====
-- src/client.rs: a close whose deadline passes with entries queued, and one whose deadline the clock
-- cannot represent.
use ecapplog_rust.Base.{
  ℕ, ◌^◌, ◌-◌, All, none, zero, suc, List, ◌≡◌, ◌≤◌, ◌+◌, ◌*◌, refl, [], ◌∷◌, arith, length,
}
use ecapplog_rust.Client.Worker.{
  World, Event, logs, ticks, done, run, start, step, log, work, work_at, at_greeting, at_checking,
  after_connect, at_reconnect, until_deadline, close,
}
use ecapplog_rust.Queue.{new, push, request_shutdown}
use ecapplog_rust.Client.{Config, second, build, connect, dial_timeout, dial_each}
use ecapplog_rust.Client.Close.Late.{Bounded, run-late}
use ecapplog_rust.Client.Close.Overflow.{run-overflowed}
use ecapplog_rust.Client.Tests.{settings, entry, to_writer, works_for, open_and_closing, clock_end}

-- The worker has seen the shutdown and set its deadline; then six seconds pass.
abbrev overdue : World
unfolding open_and_closing run start new step log push work work_at at_checking until_deadline
    at_greeting after_connect at_reconnect close request_shutdown
overdue = run settings to_writer open_and_closing (works_for 1 (ticks (6 * second) ∷ []))

run-late_example :
    let u = run settings to_writer overdue (works_for 3 (logs (entry 2) ∷ works_for 2 [])) in
    (u.pc ≡ done) × (length u.written ≤ length overdue.written + 1)
unfolding overdue settings build open_and_closing run start new step log push work work_at
    at_checking until_deadline at_greeting after_connect at_reconnect connect dial_timeout dial_each
    close request_shutdown
run-late_example =
    run-late settings to_writer (5 * second) overdue (works_for 3 (logs (entry 2) ∷ works_for 2 []))
      refl refl (omega arith) (omega arith)

-- `Duration::MAX`.
abbrev without_end : Config
without_end = record settings { flush_timeout = 2 ^ 64 * second - 1 }

works_for-Bounded :
    (n : ℕ) (es : List Event)
    → All (Bounded clock_end none) es
    → All (Bounded clock_end none) (works_for n es)
works_for-Bounded zero es b = b
works_for-Bounded (suc n) es b = (omega arith, works_for-Bounded n es b)

run-overflowed_example :
    let u = run without_end to_writer open_and_closing (works_for 5 []) in
    (u.pc ≡ done) × (length u.written ≤ length open_and_closing.written + 1)
unfolding open_and_closing run start new step log push work work_at at_checking until_deadline
    at_greeting after_connect at_reconnect close request_shutdown
run-overflowed_example =
    run-overflowed without_end to_writer clock_end open_and_closing (works_for 5 []) refl refl
      (omega arith) (works_for-Bounded 5 [] tt) (omega arith)
