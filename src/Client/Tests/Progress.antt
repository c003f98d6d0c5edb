-- ===== src/Client/Tests/Progress.antt =====
-- src/client.rs: a client whose two entries are delivered once its callers are quiet.
use ecapplog_rust.Base.{ℕ, zero, suc, ◌≡◌, refl, List, [], ◌∷◌, ◌++◌, true, arith, All}
use ecapplog_rust.Base.Int.{rem_euclid}
use ecapplog_rust.Base.Text.{decimal}
use ecapplog_rust.Priority
use ecapplog_rust.Record.{new as new_record}
use ecapplog_rust.Queue.{new, push, flush}
use ecapplog_rust.Proto.{fields, from_record}
use ecapplog_rust.Timestamp.{format_utc}
use ecapplog_rust.Client.Worker.{
  Event, logs, ticks, start, run, step, log, work, work_at, at_reconnect,
}
use ecapplog_rust.Client.Kept.{entries_of}
use ecapplog_rust.Client.Progress.{run-start-delivered}
use ecapplog_rust.Client.Progress.Steps.{IsQuiet}
use ecapplog_rust.Client.Tests.{settings, to_writer, entry, works_for, answered}

-- The worker is about to connect when the second entry is logged.
abbrev busy_start : List Event
busy_start = logs (entry 0) ∷ works_for 1 (logs (entry 1) ∷ [])

abbrev quiet_end : List Event
quiet_end = works_for 9 (ticks 5 ∷ works_for 9 [])

works_for-IsQuiet :
    (n : ℕ) (es : List Event) → All (IsQuiet settings) es → All (IsQuiet settings) (works_for n es)
works_for-IsQuiet zero es q = q
works_for-IsQuiet (suc n) es q = ((2, answered, refl), works_for-IsQuiet n es q)

run-start-delivered_example :
    let u = run settings to_writer (start (new 2)) (busy_start ++ quiet_end) in
    (flush u.queue ≡ true) × (u.written ≡ entries_of busy_start)
unfolding entry new_record fields from_record format_utc decimal rem_euclid Priority.as_str run
    start new step log push work work_at at_reconnect
run-start-delivered_example =
    run-start-delivered settings to_writer 2 busy_start quiet_end refl (omega arith)
      ((_, refl, omega arith), ((_, refl, omega arith), tt))
      (works_for-IsQuiet 9 (ticks 5 ∷ works_for 9 []) (tt, works_for-IsQuiet 9 [] tt)) (omega arith)
