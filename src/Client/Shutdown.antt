-- ===== src/Client/Shutdown.antt =====
-- src/client.rs: the steps that the worker can still take once shutdown is requested.
use ecapplog_rust.Base.{ℕ, ◌+◌, ◌-◌, ◌*◌, ◌≤◌, ◌≡◌, refl, ap, List, [], ◌∷◌, true, arith, length}
use ecapplog_rust.Record.{Record}
use ecapplog_rust.Queue.{
  push, push_front, pop, pop_from, finish, request_shutdown, sleep_or_shutdown,
}
use ecapplog_rust.Proto.{Object}
use ecapplog_rust.Client.{
  Config, connect, stream, refused, Attempt, Serialized, WriteOutcome, complete, broken,
  WriteResult, ok, discard, connection, write_record,
}
use ecapplog_rust.Base.Text.{Text}
use ecapplog_rust.Client.Worker.{
  Pc, reconnect, connecting, greeting, checking, popping, finishing, pausing, done, writing,
  requeueing, settling, World, Outcome, Event, logs, tells, closes, ticks, works, work_at,
  after_connect, at_greeting, after_pop, after_write, work, step, run,
}

-- The worker's steps that can be left, by its place and the number of queued entries.
abbrev pub budget_at : Pc → ℕ → ℕ
budget_at done n = 0
budget_at pausing n = 1
budget_at (settling t) n = 2
budget_at (requeueing r) n = 3
budget_at popping n = 4 * n + 1
budget_at checking n = 4 * n + 2
budget_at finishing n = 4 * n + 3
budget_at greeting n = 4 * n + 3
budget_at (writing r) n = 4 * n + 4
budget_at connecting n = 4 * n + 4
budget_at reconnect n = 4 * n + 5

abbrev pub budget : World → ℕ
budget w = budget_at w.pc (length w.queue.items)

abbrev pub steps_of : Event → ℕ
steps_of (works o) = 1
steps_of _ = 0

abbrev pub worker_steps : List Event → ℕ
worker_steps [] = 0
worker_steps (e ∷ es) = steps_of e + worker_steps es

-- After a step from a place with `b` steps to go, fewer are left.
abbrev Falls : ℕ → World → Type 0
Falls b v = (v.queue.shutdown ≡ true) × (budget v ≤ b - 1)

module _ (c : Config) (w : World) (s : w.queue.shutdown ≡ true) where
  abbrev n : ℕ
  n = length w.queue.items

  after_connect-Falls : (a : Attempt) → Falls (4 * n + 4) (after_connect c w a)
  unfolding after_connect
  after_connect-Falls (stream a) = (s, omega arith)
  after_connect-Falls (refused e) = (s, omega arith)

  at_greeting-Falls : (o : WriteOutcome) → Falls (4 * n + 3) (at_greeting c o w)
  unfolding at_greeting
  at_greeting-Falls complete = (s, omega arith)
  at_greeting-Falls (broken k e) = (s, omega arith)

  after_write-Falls :
      (r : Record) (x : WriteResult × Text) → Falls (4 * n + 4) (after_write c w r x)
  unfolding after_write
  after_write-Falls r (ok, bytes) = (s, omega arith)
  after_write-Falls r (discard e, bytes) = (s, omega arith)
  after_write-Falls r (connection e, bytes) = (s, omega arith)

  after_pop-Falls :
      (xs : List Record)
      → w.queue.items ≡ xs
      → Falls (4 * n + 1) (after_pop w (pop_from w.queue xs))
  unfolding after_pop pop_from
  after_pop-Falls [] e = ground arith
  after_pop-Falls (x ∷ xs) e = (s, omega (arith, ap length e))

  work_at-Falls :
      (to_writer : Object → Serialized) (o : Outcome) (p : Pc)
      → w.pc ≡ p
      → Falls (budget_at p n) (work_at c to_writer o w p)
  unfolding work_at finish push_front pop sleep_or_shutdown
  work_at-Falls to_writer o reconnect e = ground arith
  work_at-Falls to_writer o connecting e =
      after_connect-Falls (connect c o.network w.flush_deadline w.now)
  work_at-Falls to_writer o greeting e = at_greeting-Falls o.write
  work_at-Falls to_writer o checking e = ground arith
  work_at-Falls to_writer o popping e = after_pop-Falls w.queue.items refl
  work_at-Falls to_writer o (writing r) e = after_write-Falls r (write_record to_writer o.write r)
  work_at-Falls to_writer o finishing e = ground arith
  work_at-Falls to_writer o (requeueing r) e = ground arith
  work_at-Falls to_writer o (settling total) e = ground arith
  work_at-Falls to_writer o pausing e = ground arith
  work_at-Falls to_writer o done e = (s, omega (arith, ap (λ p. budget_at p n) e))

  work-Falls :
      (to_writer : Object → Serialized) (o : Outcome) → Falls (budget w) (work c to_writer o w)
  unfolding work
  work-Falls to_writer o = work_at-Falls to_writer o w.pc refl

  pub step-Falls :
      (to_writer : Object → Serialized) (e : Event)
      → let v = step c to_writer w e in
        (v.queue.shutdown ≡ true) × (budget v ≤ budget w - steps_of e)
  unfolding step push request_shutdown
  step-Falls to_writer (logs r) = ground arith
  step-Falls to_writer (tells k) = (s, omega arith)
  step-Falls to_writer closes = ground arith
  step-Falls to_writer (ticks k) = ground arith
  step-Falls to_writer (works o) = work-Falls to_writer o

no_budget : (p : Pc) (n : ℕ) → budget_at p n ≡ 0 → p ≡ done
no_budget done n h = refl
no_budget reconnect n h = absurd (omega arith)
no_budget connecting n h = absurd (omega arith)
no_budget greeting n h = absurd (omega arith)
no_budget checking n h = absurd (omega arith)
no_budget popping n h = absurd (omega arith)
no_budget finishing n h = absurd (omega arith)
no_budget pausing n h = absurd (omega arith)
no_budget (writing r) n h = absurd (omega arith)
no_budget (requeueing r) n h = absurd (omega arith)
no_budget (settling t) n h = absurd (omega arith)

run-done_at :
    (c : Config) (to_writer : Object → Serialized) (w : World) (es : List Event)
    → w.queue.shutdown ≡ true
    → budget w ≤ worker_steps es
    → (run c to_writer w es).pc ≡ done
unfolding run
run-done_at c to_writer w [] s h = no_budget w.pc (length w.queue.items) (omega arith)
run-done_at c to_writer w (e ∷ es) s h =
    let f = step-Falls c w s to_writer e in
    run-done_at c to_writer (step c to_writer w e) es f.0 (omega arith)

budget-le : (p : Pc) (n : ℕ) → budget_at p n ≤ 4 * n + 5
budget-le done n = omega arith
budget-le _ n = omega arith

-- Once shutdown is requested, the worker is done after four of its own steps for each queued entry
-- and five more, whatever callers log, however much time passes, and however connects and writes
-- come out, in every interleaving.
pub run-done :
    (c : Config) (to_writer : Object → Serialized) (w : World) (es : List Event)
    → w.queue.shutdown ≡ true
    → 4 * length w.queue.items + 5 ≤ worker_steps es
    → (run c to_writer w es).pc ≡ done
run-done c to_writer w es s h =
    run-done_at c to_writer w es s (omega (arith, budget-le w.pc (length w.queue.items)))
