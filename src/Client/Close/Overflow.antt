-- ===== src/Client/Close/Overflow.antt =====
-- src/client.rs: a close with a flush timeout that the clock cannot add to the present instant.
use ecapplog_rust.Base.{ℕ, ◌+◌, ◌≤◌, ◌<◌, ◌≡◌, List, none, true, All, length}
use ecapplog_rust.Proto.{Object}
use ecapplog_rust.Client.{Config, Serialized}
use ecapplog_rust.Client.Worker.{World, Event, done, run}
use ecapplog_rust.Client.Shutdown.{worker_steps}
use ecapplog_rust.Client.Close.Late.{Bounded, run-Late}

-- Once shutdown is requested, with a flush timeout that reaches past the last instant that the clock
-- can represent and no deadline set yet, the worker is done after five more of its own steps and
-- writes at most one more entry, however many are queued, with `flush_on_close` too, whatever callers
-- log, and however connects and writes come out, in every interleaving.
pub run-overflowed :
    (c : Config) (to_writer : Object → Serialized) (latest : ℕ) (w : World) (es : List Event)
    → w.queue.shutdown ≡ true
    → w.flush_deadline ≡ none
    → latest < w.now + c.flush_timeout
    → All (Bounded latest none) es
    → 5 ≤ worker_steps es
    → let u = run c to_writer w es in (u.pc ≡ done) × (length u.written ≤ length w.written + 1)
run-overflowed c to_writer latest w es s f t b h =
    run-Late c to_writer latest none w es (s, f, t) b h
