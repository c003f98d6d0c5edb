-- ===== src/Client/Progress/Steps.antt =====
-- src/client.rs with src/queue.rs: the steps of the worker of an open client.
use ecapplog_rust.Base.{
  ℕ, ◌+◌, ◌-◌, ◌*◌, ◌≤◌, ◌≡◌, refl, ap, List, [], ◌∷◌, Bool, true, false, Option, arith, length,
  All,
}
use ecapplog_rust.Record.{Record}
use ecapplog_rust.Queue.{push_front, pop, pop_from, push, finish, sleep_or_shutdown}
use ecapplog_rust.Proto.{Object}
use ecapplog_rust.Client.{Config, connect, stream, Serialized, complete, write_json, write_record}
use ecapplog_rust.Client.Worker.{
  Pc, reconnect, connecting, greeting, checking, popping, finishing, pausing, done, writing,
  requeueing, settling, World, Outcome, Event, logs, tells, closes, ticks, works, at_reconnect,
  at_checking, at_greeting, at_requeueing, at_pausing, at_settling, after_connect, after_pop,
  after_write, work_at, work, begin_log, step, run,
}
use ecapplog_rust.Client.Shutdown.{steps_of, worker_steps}
use ecapplog_rust.Client.Invariant.{is_busy}
use ecapplog_rust.Client.Kept.{is_open}

-- The worker's steps until nothing is queued or in its hand, by its place and the number of queued
-- entries.
abbrev pub serving_at : Pc → ℕ → ℕ
serving_at done n = 0
serving_at popping n = 4 * n - 1
serving_at checking n = 4 * n
serving_at greeting n = 4 * n + 1
serving_at finishing n = 4 * n + 1
serving_at connecting n = 4 * n + 2
serving_at (writing r) n = 4 * n + 2
serving_at reconnect n = 4 * n + 3
serving_at pausing n = 4 * n + 4
serving_at (settling t) n = 4 * n + 5
serving_at (requeueing r) n = 4 * n + 10

abbrev pub is_done : Pc → Bool
is_done done = true
is_done _ = false

-- The callers are quiet, each connect is answered, and each write succeeds.
abbrev pub IsQuiet : Config → Event → Type 0
IsQuiet c (works o) =
    (a : ℕ) × ((deadline : Option ℕ) (now : ℕ) → connect c o.network deadline now ≡ stream a)
    × (o.write ≡ complete)
IsQuiet c (tells k) = Unit
IsQuiet c (ticks n) = Unit
IsQuiet c _ = ⊥

-- After a step from a place with `b` steps to go, fewer are left.
abbrev Falls : ℕ → World → Type 0
Falls b v =
    (v.queue.shutdown ≡ false)
    × (is_done v.pc ≡ false)
    × (serving_at v.pc (length v.queue.items) ≤ b - 1)

module _ (c : Config) (w : World) (s : w.queue.shutdown ≡ false) where
  abbrev n : ℕ
  n = length w.queue.items

  after_write-Falls :
      (to_writer : Object → Serialized) (r : Record)
      → Falls (4 * n + 2) (after_write c w r (write_record to_writer complete r))
  unfolding after_write write_record write_json
  after_write-Falls to_writer r = ground arith

  after_pop-Falls :
      (xs : List Record)
      → w.queue.items ≡ xs
      → Falls (4 * n - 1) (after_pop w (pop_from w.queue xs))
  unfolding after_pop pop_from
  after_pop-Falls [] e = ground arith
  after_pop-Falls (x ∷ xs) e = (s, refl, omega (arith, ap length e))

  at_requeueing-Falls : (r : Record) → Falls (4 * n + 10) (at_requeueing r w)
  unfolding at_requeueing push_front
  at_requeueing-Falls r = ground arith

  work_at-Falls :
      (to_writer : Object → Serialized) (o : Outcome) (p : Pc)
      → is_done p ≡ false
      → IsQuiet c (works o)
      → Falls (serving_at p n) (work_at c to_writer o w p)
  unfolding work_at finish pop at_reconnect at_checking at_pausing at_settling after_connect
      at_greeting sleep_or_shutdown
  work_at-Falls to_writer o reconnect d q = rw s (refl, refl, omega arith)
  work_at-Falls to_writer o connecting d (a, answers, good) =
      rw (answers w.flush_deadline w.now) (s, refl, omega arith)
  work_at-Falls to_writer o greeting d (a, answers, good) = rw good (s, refl, omega arith)
  work_at-Falls to_writer o checking d q = rw s (refl, refl, omega arith)
  work_at-Falls to_writer o popping d q = after_pop-Falls w.queue.items refl
  work_at-Falls to_writer o (writing r) d (a, answers, good) =
      rw good (after_write-Falls to_writer r)
  work_at-Falls to_writer o finishing d q = (s, refl, omega arith)
  work_at-Falls to_writer o (requeueing r) d q = at_requeueing-Falls r
  work_at-Falls to_writer o (settling total) d q = (s, refl, omega arith)
  work_at-Falls to_writer o pausing d q = rw s (refl, refl, omega arith)
  work_at-Falls to_writer o done d q = cc

  step-Falls :
      (to_writer : Object → Serialized) (e : Event)
      → is_done w.pc ≡ false
      → IsQuiet c e
      → let v = step c to_writer w e in
        (v.queue.shutdown ≡ false)
        × (is_done v.pc ≡ false)
        × (serving_at v.pc (length v.queue.items) ≤ serving_at w.pc n - steps_of e)
  unfolding step work
  step-Falls to_writer (logs r) d q = absurd q
  step-Falls to_writer closes d q = absurd q
  step-Falls to_writer (tells k) d q = (s, d, omega arith)
  step-Falls to_writer (ticks k) d q = (s, d, omega arith)
  step-Falls to_writer (works o) d q = work_at-Falls to_writer o w.pc d q

pub run-Falls :
    (c : Config) (to_writer : Object → Serialized) (w : World) (es : List Event)
    → w.queue.shutdown ≡ false
    → is_done w.pc ≡ false
    → All (IsQuiet c) es
    → let u = run c to_writer w es in
      (is_done u.pc ≡ false)
      × (serving_at u.pc (length u.queue.items)
          ≤ serving_at w.pc (length w.queue.items) - worker_steps es)
unfolding run
run-Falls c to_writer w [] s d q = (d, omega arith)
run-Falls c to_writer w (e ∷ es) s d (q, qs) =
    let (s', d', f) = step-Falls c w s to_writer e d q in
    let (d'', g) = run-Falls c to_writer (step c to_writer w e) es s' d' qs in
    (d'', omega (arith, f, g))

pub serving_at-le : (p : Pc) (n : ℕ) → serving_at p n ≤ 4 * n + 10
serving_at-le done n = omega arith
serving_at-le _ n = omega arith

pub served :
    (p : Pc) (xs : List Record)
    → is_done p ≡ false
    → serving_at p (length xs) ≡ 0
    → (is_busy p ≡ false) × (xs ≡ [])
served done xs d h = cc
served popping [] d h = (refl, refl)
served checking [] d h = (refl, refl)
served _ xs d h = absurd (omega arith)

-- A client that is open stays so, and its worker goes on.
work_at-open :
    (c : Config) (to_writer : Object → Serialized) (o : Outcome) (w : World) (p : Pc)
    → w.queue.shutdown ≡ false
    → is_done p ≡ false
    → let v = work_at c to_writer o w p in (v.queue.shutdown ≡ false) × (is_done v.pc ≡ false)
unfolding work_at finish pop pop_from at_reconnect at_checking at_pausing at_settling after_connect
    at_greeting after_pop after_write at_requeueing push_front sleep_or_shutdown
work_at-open c to_writer o w reconnect s d = ground arith
work_at-open c to_writer o w connecting s d =
    ground (arith, connect c o.network w.flush_deadline w.now)
work_at-open c to_writer o w greeting s d = ground (arith, o.write)
work_at-open c to_writer o w checking s d = ground arith
work_at-open c to_writer o w popping s d = ground arith
work_at-open c to_writer o w (writing r) s d = ground arith
work_at-open c to_writer o w finishing s d = ground arith
work_at-open c to_writer o w (requeueing r) s d = ground arith
work_at-open c to_writer o w (settling total) s d = ground arith
work_at-open c to_writer o w pausing s d = ground arith
work_at-open c to_writer o w done s d = cc

pub run-open :
    (c : Config) (to_writer : Object → Serialized) (w : World) (es : List Event)
    → w.queue.shutdown ≡ false
    → is_done w.pc ≡ false
    → is_open es ≡ true
    → let v = run c to_writer w es in (v.queue.shutdown ≡ false) × (is_done v.pc ≡ false)
unfolding run step begin_log push work
run-open c to_writer w [] s d h = (s, d)
run-open c to_writer w (logs r ∷ es) s d h =
    run-open c to_writer (step c to_writer w (logs r)) es (ground arith) d h
run-open c to_writer w (closes ∷ es) s d h = cc
run-open c to_writer w (tells k ∷ es) s d h =
    run-open c to_writer (step c to_writer w (tells k)) es s d h
run-open c to_writer w (ticks n ∷ es) s d h =
    run-open c to_writer (step c to_writer w (ticks n)) es s d h
run-open c to_writer w (works o ∷ es) s d h =
    let (s', d') = work_at-open c to_writer o w w.pc s d in
    run-open c to_writer (step c to_writer w (works o)) es s' d' h
