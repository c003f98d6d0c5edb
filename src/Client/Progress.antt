-- ===== src/Client/Progress.antt =====
-- src/client.rs with src/queue.rs: the worker of an open client, once its connects are answered, its
-- writes succeed and the callers are quiet.
use ecapplog_rust.Base.{
  ℕ, ◌+◌, ◌-◌, ◌*◌, ◌≤◌, ◌≡◌, refl, sym, ap, subst, ◌∙◌, List, [], ◌∷◌, ◌++◌, true, false, arith,
  length, All,
}
use ecapplog_rust.Queue.{new, flush}
use ecapplog_rust.Proto.{Object}
use ecapplog_rust.Client.{Config, Serialized}
use ecapplog_rust.Client.Worker.{World, start, Event, logs, tells, closes, ticks, works, step, run}
use ecapplog_rust.Client.Shutdown.{worker_steps}
use ecapplog_rust.Client.Invariant.{is_busy, Inv, At, run-start-Inv}
use ecapplog_rust.Client.Close.{Sendable}
use ecapplog_rust.Client.Kept.{entries_of, is_open, flush-written}
use ecapplog_rust.Client.Progress.Steps.{IsQuiet, serving_at-le, served, run-Falls, run-open}
pub mod Steps

flush-served :
    (w : World) → At w w.pc → is_busy w.pc ≡ false → w.queue.items ≡ [] → flush w.queue ≡ true
unfolding flush
flush-served w v b e = rw (e, v.busy_is, b) refl

run-append :
    (c : Config) (to_writer : Object → Serialized) (w : World) (es later : List Event)
    → run c to_writer w (es ++ later) ≡ run c to_writer (run c to_writer w es) later
unfolding run
run-append c to_writer w [] later = refl
run-append c to_writer w (e ∷ es) later = run-append c to_writer (step c to_writer w e) es later

is_open-append :
    (c : Config) (es later : List Event)
    → is_open es ≡ true
    → All (IsQuiet c) later
    → (is_open (es ++ later) ≡ true) × (entries_of (es ++ later) ≡ entries_of es)
is_open-append c [] [] h q = (refl, refl)
is_open-append c [] (works o ∷ later) h (q, qs) = is_open-append c [] later h qs
is_open-append c [] (tells k ∷ later) h (q, qs) = is_open-append c [] later h qs
is_open-append c [] (ticks n ∷ later) h (q, qs) = is_open-append c [] later h qs
is_open-append c [] (logs r ∷ later) h (q, qs) = absurd q
is_open-append c [] (closes ∷ later) h (q, qs) = absurd q
is_open-append c (logs r ∷ es) later h q =
    let (o, e) = is_open-append c es later h q in (o, ap (◌∷◌ r) e)
is_open-append c (closes ∷ es) later h q = cc
is_open-append c (works o ∷ es) later h q = is_open-append c es later h q
is_open-append c (tells k ∷ es) later h q = is_open-append c es later h q
is_open-append c (ticks n ∷ es) later h q = is_open-append c es later h q

-- An open client, whatever happened to it before, serves all that is queued once connects are answered
-- and writes succeed: when its callers are quiet, `flush` answers true after four steps of the worker
-- for each queued entry and ten more.
pub run-start-served_all :
    (c : Config) (to_writer : Object → Serialized) (n : ℕ) (es later : List Event)
    → is_open es ≡ true
    → All (IsQuiet c) later
    → 4 * length (run c to_writer (start (new n)) es).queue.items + 10 ≤ worker_steps later
    → flush (run c to_writer (start (new n)) (es ++ later)).queue ≡ true
unfolding start new
run-start-served_all c to_writer n es later h q b =
    let w = run c to_writer (start (new n)) es in
    let u = run c to_writer w later in
    let e = run-append c to_writer (start (new n)) es later in
    let (s, d) = run-open c to_writer (start (new n)) es refl refl h in
    let (d', f) = run-Falls c to_writer w later s d q in
    let m = serving_at-le w.pc (length w.queue.items) in
    let (idle, empty) = served u.pc u.queue.items d' (omega (arith, f, m)) in
    let v = subst Inv e (run-start-Inv c to_writer n (es ++ later)) in
    ap (λ x. flush x.queue) e ∙ flush-served u v idle empty

-- A client that is open and has room for all that its callers log, all of it sendable, delivers it.
-- Whatever happened before, however connects and writes came out: once connects are answered, writes
-- succeed and the callers are quiet, after four steps of the worker for each queued entry and ten more
-- `flush` answers true, and exactly what was logged has been written, in its order.
pub run-start-delivered :
    (c : Config) (to_writer : Object → Serialized) (n : ℕ) (es later : List Event)
    → is_open es ≡ true
    → length (entries_of es) ≤ n
    → All (Sendable c to_writer) (entries_of es)
    → All (IsQuiet c) later
    → 4 * length (run c to_writer (start (new n)) es).queue.items + 10 ≤ worker_steps later
    → let u = run c to_writer (start (new n)) (es ++ later) in
      (flush u.queue ≡ true) × (u.written ≡ entries_of es)
run-start-delivered c to_writer n es later h r s q b =
    let (o, e) = is_open-append c es later h q in
    let f = run-start-served_all c to_writer n es later h q b in
    let w =
      flush-written c to_writer n (es ++ later) o (omega (arith, ap length e, r))
        (subst (All (Sendable c to_writer)) (sym e) s) f in
    (f, w ∙ e)
