-- ===== src/Client/Tests/Refusing.antt =====
-- src/client.rs: entries that are logged after a close, with the queue empty.
use ecapplog_rust.Base.{◌≡◌, ◌+◌, ◌%◌, ◌++◌, refl, List, [], ◌∷◌, arith, length}
use ecapplog_rust.Record.{Record}
use ecapplog_rust.Queue.{new, u64_mod, request_shutdown}
use ecapplog_rust.Client.Worker.{World, closes, start, run, step, close}
use ecapplog_rust.Client.Refusing.{calls, queue_fulls, run-refused}
use ecapplog_rust.Client.Tests.{watched, to_writer, entry}

abbrev closed : World
closed = run watched to_writer (start (new 10)) (closes ∷ [])

abbrev late_entries : List Record
late_entries = entry 0 ∷ entry 1 ∷ []

run-refused_example :
    let u = run watched to_writer closed (calls (length closed.telling) late_entries) in
    (u.queue.items ≡ closed.queue.items)
    × (u.queue.dropped ≡ (closed.queue.dropped + length late_entries) % u64_mod)
    × (u.reported
        ≡ closed.reported
          ++ queue_fulls closed.queue.capacity closed.queue.dropped (length late_entries))
unfolding run step close request_shutdown start new
run-refused_example = run-refused watched to_writer refl closed late_entries refl (omega arith)
