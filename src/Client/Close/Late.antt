-- ===== src/Client/Close/Late.antt =====
-- src/client.rs: what the worker still does once the flush deadline has passed.
use ecapplog_rust.Base.{
  ℕ, ◌+◌, ◌-◌, ◌≤◌, ◌<◌, ◌≡◌, refl, ap, List, [], ◌∷◌, Option, none, some, All, true, arith, length,
  length-append,
}
use ecapplog_rust.Base.Text.{Text}
use ecapplog_rust.Record.{Record}
use ecapplog_rust.Queue.{
  push, push_front, pop, pop_from, finish, request_shutdown, sleep_or_shutdown,
}
use ecapplog_rust.Proto.{Object}
use ecapplog_rust.Client.{
  Config, connect, stream, refused, Attempt, Serialized, WriteOutcome, complete, broken,
  WriteResult, ok, discard, connection, write_record,
}
use ecapplog_rust.Client.Worker.{
  Pc, reconnect, connecting, greeting, checking, popping, finishing, pausing, done, writing,
  requeueing, settling, World, Outcome, Event, logs, tells, closes, ticks, works, work_at,
  after_connect, at_greeting, after_pop, after_write, work, step, run, begin_log, end_log, close,
  until_deadline, at_reconnect, at_checking, at_requeueing,
}
use ecapplog_rust.Client.Shutdown.{steps_of, worker_steps}

-- The worker's steps that can be left, and the entries it can still write, by its place.
abbrev late_steps : Pc → ℕ
late_steps done = 0
late_steps reconnect = 1
late_steps checking = 1
late_steps pausing = 1
late_steps (settling t) = 2
late_steps finishing = 2
late_steps greeting = 2
late_steps (requeueing r) = 3
late_steps connecting = 3
late_steps (writing r) = 4
late_steps popping = 5

abbrev late_writes : Pc → ℕ
late_writes (writing r) = 1
late_writes popping = 1
late_writes _ = 0

-- The deadline has passed, or one that is to be set is past the instant `latest`.
abbrev pub Passed : Config → ℕ → Option ℕ → ℕ → Type 0
Passed c latest (some d) now = d ≤ now
Passed c latest none now = latest < now + c.flush_timeout

-- Shutdown was requested, and there is no time to drain.
abbrev pub Late : Config → ℕ → Option ℕ → World → Type 0
Late c latest d w = (w.queue.shutdown ≡ true) × (w.flush_deadline ≡ d) × Passed c latest d w.now

-- Where no deadline is set, no step of the worker sees instants past `latest` represented.
abbrev pub Bounded : ℕ → Option ℕ → Event → Type 0
Bounded latest none (works o) = o.latest ≤ latest
Bounded latest _ _ = Unit

-- After a step from a place with `b` steps to go, fewer are left, and at most `n` entries are written
-- from then on, the step included.
abbrev Falls : Config → ℕ → Option ℕ → World → ℕ → ℕ → World → Type 0
Falls c latest d w b n v =
    Late c latest d v
    × (late_steps v.pc ≤ b - 1)
    × (length v.written + late_writes v.pc ≤ length w.written + n)

-- A test of the deadline stops the worker.
until_deadline-Falls :
    (c : Config) (latest : ℕ) (d : Option ℕ) (w : World) (o : Outcome) (next : Pc)
    → Late c latest d w
    → Bounded latest d (works o)
    → Falls c latest d w 1 0 (until_deadline c o w next)
unfolding until_deadline
until_deadline-Falls c latest (some d) w o next l b = ground arith
until_deadline-Falls c latest none w o next l b = ground arith

Passed-later :
    (c : Config) (latest : ℕ) (d : Option ℕ) (now k : ℕ)
    → Passed c latest d now
    → Passed c latest d (now + k)
Passed-later c latest (some d) now k h = omega arith
Passed-later c latest none now k h = omega arith

module _ (c : Config) (latest : ℕ) (d : Option ℕ) (w : World) (l : Late c latest d w) where
  after_connect-Falls : (a : Attempt) → Falls c latest d w 3 0 (after_connect c w a)
  unfolding after_connect
  after_connect-Falls (stream a) = (l, omega arith, omega arith)
  after_connect-Falls (refused e) = (l, omega arith, omega arith)

  at_greeting-Falls : (o : WriteOutcome) → Falls c latest d w 2 0 (at_greeting c o w)
  unfolding at_greeting
  at_greeting-Falls complete = (l, omega arith, omega arith)
  at_greeting-Falls (broken k e) = (l, omega arith, omega arith)

  after_write-Falls :
      (r : Record) (x : WriteResult × Text) → Falls c latest d w 4 1 (after_write c w r x)
  unfolding after_write
  after_write-Falls r (ok, bytes) =
      (l, omega arith, omega (arith, length-append w.written (r ∷ [])))
  after_write-Falls r (discard e, bytes) = (l, omega arith, omega arith)
  after_write-Falls r (connection e, bytes) = (l, omega arith, omega arith)

  after_pop-Falls : (xs : List Record) → Falls c latest d w 5 1 (after_pop w (pop_from w.queue xs))
  unfolding after_pop pop_from
  after_pop-Falls [] = ground arith
  after_pop-Falls (x ∷ xs) = (l, omega arith, omega arith)

  at_reconnect-Falls :
      (o : Outcome) → Bounded latest d (works o) → Falls c latest d w 1 0 (at_reconnect c o w)
  unfolding at_reconnect
  at_reconnect-Falls o b = ground (arith, until_deadline-Falls c latest d w o connecting l b)

  at_checking-Falls :
      (o : Outcome) → Bounded latest d (works o) → Falls c latest d w 1 0 (at_checking c o w)
  unfolding at_checking
  at_checking-Falls o b = ground (arith, until_deadline-Falls c latest d w o popping l b)

  at_requeueing-Falls : (r : Record) → Falls c latest d w 3 0 (at_requeueing r w)
  unfolding at_requeueing push_front
  at_requeueing-Falls r = ground arith

  work_at-Falls :
      (to_writer : Object → Serialized) (o : Outcome) (p : Pc)
      → Bounded latest d (works o)
      → w.pc ≡ p
      → Falls c latest d w (late_steps p) (late_writes p) (work_at c to_writer o w p)
  unfolding work_at finish push_front pop sleep_or_shutdown
  work_at-Falls to_writer o reconnect b e = at_reconnect-Falls o b
  work_at-Falls to_writer o connecting b e =
      after_connect-Falls (connect c o.network w.flush_deadline w.now)
  work_at-Falls to_writer o greeting b e = at_greeting-Falls o.write
  work_at-Falls to_writer o checking b e = at_checking-Falls o b
  work_at-Falls to_writer o popping b e = after_pop-Falls w.queue.items
  work_at-Falls to_writer o (writing r) b e = after_write-Falls r (write_record to_writer o.write r)
  work_at-Falls to_writer o finishing b e = (l, omega arith, omega arith)
  work_at-Falls to_writer o (requeueing r) b e = at_requeueing-Falls r
  work_at-Falls to_writer o (settling total) b e = (l, omega arith, omega arith)
  work_at-Falls to_writer o pausing b e = ground arith
  work_at-Falls to_writer o done b e =
      (l, omega (arith, ap late_steps e), omega (arith, ap late_writes e))

  work-Falls :
      (to_writer : Object → Serialized) (o : Outcome)
      → Bounded latest d (works o)
      → Falls c latest d w (late_steps w.pc) (late_writes w.pc) (work c to_writer o w)
  unfolding work
  work-Falls to_writer o b = work_at-Falls to_writer o w.pc b refl

  -- The steps of the other threads take nothing and write nothing.
  step-Falls :
      (to_writer : Object → Serialized) (e : Event)
      → Bounded latest d e
      → let v = step c to_writer w e in
        Late c latest d v
        × (late_steps v.pc ≤ late_steps w.pc - steps_of e)
        × (length v.written + late_writes v.pc ≤ length w.written + late_writes w.pc)
  unfolding step begin_log end_log close push request_shutdown
  step-Falls to_writer (logs r) b = ground arith
  step-Falls to_writer (tells k) b = (l, omega arith, omega arith)
  step-Falls to_writer closes b = ground arith
  step-Falls to_writer (ticks k) b =
      ((l.0, l.1, Passed-later c latest d w.now k l.2), omega arith, omega arith)
  step-Falls to_writer (works o) b = work-Falls to_writer o b

no_late_steps : (p : Pc) → late_steps p ≡ 0 → p ≡ done
no_late_steps p h = ground arith

late_steps-le : (p : Pc) → (late_steps p ≤ 5) × (late_writes p ≤ 1)
late_steps-le p = ground arith

run-Falls :
    (c : Config) (to_writer : Object → Serialized) (latest : ℕ) (d : Option ℕ) (w : World)
    (es : List Event)
    → Late c latest d w
    → All (Bounded latest d) es
    → late_steps w.pc ≤ worker_steps es
    → let u = run c to_writer w es in
      (u.pc ≡ done) × (length u.written ≤ length w.written + late_writes w.pc)
unfolding run
run-Falls c to_writer latest d w [] l b h = (no_late_steps w.pc (omega arith), omega arith)
run-Falls c to_writer latest d w (e ∷ es) l (b, bs) h =
    let (l', fewer, few) = step-Falls c latest d w l to_writer e b in
    let (p, n) = run-Falls c to_writer latest d (step c to_writer w e) es l' bs (omega arith) in
    (p, omega (arith, n, few))

pub run-Late :
    (c : Config) (to_writer : Object → Serialized) (latest : ℕ) (d : Option ℕ) (w : World)
    (es : List Event)
    → Late c latest d w
    → All (Bounded latest d) es
    → 5 ≤ worker_steps es
    → let u = run c to_writer w es in (u.pc ≡ done) × (length u.written ≤ length w.written + 1)
run-Late c to_writer latest d w es l b h =
    let (steps, writes) = late_steps-le w.pc in
    let (p, n) = run-Falls c to_writer latest d w es l b (omega (arith, steps)) in
    (p, omega (arith, n, writes))

Bounded-set : (latest d : ℕ) (es : List Event) → All (Bounded latest (some d)) es
Bounded-set latest d [] = tt
Bounded-set latest d (e ∷ es) = (tt, Bounded-set latest d es)

-- Once shutdown is requested and the flush deadline has passed, the worker is done after five more of
-- its own steps and writes at most one more entry, however many are queued, whatever callers log, and
-- however connects and writes come out, in every interleaving.
pub run-late :
    (c : Config) (to_writer : Object → Serialized) (d : ℕ) (w : World) (es : List Event)
    → w.queue.shutdown ≡ true
    → w.flush_deadline ≡ some d
    → d ≤ w.now
    → 5 ≤ worker_steps es
    → let u = run c to_writer w es in (u.pc ≡ done) × (length u.written ≤ length w.written + 1)
run-late c to_writer d w es s f t h =
    run-Late c to_writer 0 (some d) w es (s, f, t) (Bounded-set 0 d es) h
