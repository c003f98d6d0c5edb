-- ===== src/Client/Tests/Kept.antt =====
-- src/client.rs: a run in which a write breaks and nothing is lost.
use ecapplog_rust.Base.{◌≡◌, ◌++◌, refl, arith}
use ecapplog_rust.Base.Int.{rem_euclid}
use ecapplog_rust.Base.Text.{decimal}
use ecapplog_rust.Priority
use ecapplog_rust.Record.{new as new_record}
use ecapplog_rust.Queue.{new}
use ecapplog_rust.Proto.{fields, from_record}
use ecapplog_rust.Timestamp.{format_utc}
use ecapplog_rust.Client.Worker.{start, run}
use ecapplog_rust.Client.Invariant.{held}
use ecapplog_rust.Client.Kept.{entries_of, run-start-kept}
use ecapplog_rust.Client.Tests.{settings, to_writer, entry, history}

run-start-kept_example :
    let w = run settings to_writer (start (new 2)) history in
    (w.written ++ (held w.pc ++ w.queue.items) ≡ entries_of history) × (w.queue.dropped ≡ 0)
unfolding entry new_record fields from_record format_utc decimal rem_euclid Priority.as_str
run-start-kept_example =
    run-start-kept settings to_writer 2 history refl (omega arith)
      ((_, refl, omega arith), ((_, refl, omega arith), tt))
