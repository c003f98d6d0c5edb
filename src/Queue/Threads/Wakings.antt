-- ===== src/Queue/Threads/Wakings.antt =====
-- src/queue.rs: no wake-up is lost.
use ecapplog_rust.Base.{Bool, ℕ, ◌<◌, true, false, ◌≡◌, refl, subst, arith}
use ecapplog_rust.Queue.{Queue, pop_blocks, flush_blocks, sleep_blocks}
use ecapplog_rust.Queue.Threads.{
  asleep, awake, Worker, running, in_pop, in_sleep, Flusher, elsewhere, in_flush, Threads, Reach,
}
use ecapplog_rust.Queue.Threads.Safety.{loud, total, PopSafe, FlushSafe, Reach-Safe}

-- Whether a thread that sleeps has reason to: the condition of its wait has not ended.
abbrev pub worker_rightly : Worker → Queue → Bool
worker_rightly (in_pop asleep) q = pop_blocks q
worker_rightly (in_sleep asleep) q = sleep_blocks q
worker_rightly _ q = true

abbrev pub flusher_rightly : Flusher → Queue → Bool
flusher_rightly (in_flush asleep) q = flush_blocks q
flusher_rightly _ q = true

reason : (b : Bool) → ((b ≡ false) → 0 < 0) → b ≡ true
reason true h = refl
reason false h = absurd (omega (arith, h refl))

PopSafe-rightly : (w : Worker) (q : Queue) → PopSafe w q 0 → worker_rightly w q ≡ true
PopSafe-rightly running q h = refl
PopSafe-rightly (in_pop awake) q h = refl
PopSafe-rightly (in_sleep awake) q h = refl
PopSafe-rightly (in_pop asleep) q h = reason (pop_blocks q) h
PopSafe-rightly (in_sleep asleep) q h = reason (sleep_blocks q) h

FlushSafe-rightly : (x : Flusher) (q : Queue) → FlushSafe x q 0 → flusher_rightly x q ≡ true
FlushSafe-rightly elsewhere q h = refl
FlushSafe-rightly (in_flush awake) q h = refl
FlushSafe-rightly (in_flush asleep) q h = reason (flush_blocks q) h

-- No wake-up is lost: in every state that the threads can reach, when no notification that rouses is
-- still to be sent, every thread that sleeps in `pop`, `sleep_or_shutdown` or `flush` has reason to,
-- since the condition of its wait has not ended.
pub Reach-rightly :
    {n : ℕ} {t : Threads}
    → Reach n t
    → (i : ℕ) → total loud t.to_work ≡ 0
    → total loud t.to_drained ≡ 0
    → (worker_rightly t.worker t.queue ≡ true) × (flusher_rightly (t.flushers i) t.queue ≡ true)
Reach-rightly {t} r i w d =
    let s = Reach-Safe r in
    (
      PopSafe-rightly t.worker t.queue (subst (PopSafe t.worker t.queue) w s.worker_safe),
      FlushSafe-rightly (t.flushers i) t.queue
          (subst (FlushSafe (t.flushers i) t.queue) d (s.flushers_safe i)),
    )

abbrev pub is_asleep : Worker → Bool
is_asleep running = false
is_asleep (in_pop asleep) = true
is_asleep (in_sleep asleep) = true
is_asleep (in_pop awake) = false
is_asleep (in_sleep awake) = false

rightly-down :
    (w : Worker) (q : Queue) → worker_rightly w q ≡ true → q.shutdown ≡ true → is_asleep w ≡ false
unfolding pop_blocks sleep_blocks
rightly-down w q h s = ground arith

-- Shutdown reaches the worker: in every state that the threads can reach, once shutdown was
-- requested and no notification of `work` that rouses is still to be sent, the worker does not sleep,
-- be it for an entry or in the pause before the next connect.
pub Reach-shutdown :
    {n : ℕ} {t : Threads}
    → Reach n t
    → t.queue.shutdown ≡ true
    → total loud t.to_work ≡ 0
    → is_asleep t.worker ≡ false
Reach-shutdown {t} r s w =
    let h = subst (PopSafe t.worker t.queue) w (Reach-Safe r).worker_safe in
    rightly-down t.worker t.queue (PopSafe-rightly t.worker t.queue h) s
