-- ===== src/Queue/Threads/Safety.antt =====
-- src/queue.rs: sleepers and the notifications that are on their way to them.
use ecapplog_rust.Base.{
  ℕ, ◌+◌, ◌<◌, true, false, List, [], ◌∷◌, ◌++◌, ◌≡◌, ◌≢◌, refl, sym, ◌∙◌, ap, subst, arith, ◌==◌,
  inl, inr, Bool-cases,
}
use ecapplog_rust.Queue.{
  Queue, Notify, silent, one, everyone, Call, pushes, push_fronts, pops, finishes, shuts_down, call,
  wakes, pop_blocks, flush_blocks, sleep_blocks,
}
use ecapplog_rust.Queue.Wakeups.{wakes-pop, wakes-flush, wakes-sleep}
use ecapplog_rust.Queue.Threads.{
  asleep, awake, Worker, running, in_pop, in_sleep, Flusher, elsewhere, in_flush, Threads, calling,
  update, rouse_worker, rouse, Rouses, nobody, somebody, all_of_them, Step, caller_pushes,
  caller_shuts_down, worker_puts_back, worker_finishes, pop_takes, pop_waits, pop_waits_on,
  pop_ends, sleep_waits, sleep_waits_on, sleep_ends, flush_waits, flush_waits_on, flush_ends,
  notifies_work, notifies_drained, worker_wakes, flusher_wakes, Reach, start, later,
}

-- How many of the notifications rouse somebody, and how many rouse only one.
abbrev pub loud : Notify → ℕ
loud silent = 0
loud _ = 1

abbrev lonely : Notify → ℕ
lonely one = 1
lonely _ = 0

abbrev pub total : (Notify → ℕ) → List Notify → ℕ
total f [] = 0
total f (n ∷ ns) = f n + total f ns

total-append :
    (f : Notify → ℕ) (before : List Notify) (n : Notify) (after : List Notify)
    → total f (before ++ n ∷ after) ≡ f n + total f (before ++ after)
total-append f [] n after = refl
total-append f (m ∷ before) n after = omega (arith, total-append f before n after)

abbrev pub PopSafe : Worker → Queue → ℕ → Type 0
PopSafe (in_pop asleep) q k = pop_blocks q ≡ false → 0 < k
PopSafe (in_sleep asleep) q k = sleep_blocks q ≡ false → 0 < k
PopSafe _ q k = Unit {0}

abbrev pub FlushSafe : Flusher → Queue → ℕ → Type 0
FlushSafe (in_flush asleep) q k = flush_blocks q ≡ false → 0 < k
FlushSafe _ q k = Unit {0}

pub record Safe (t : Threads) : Type 0 where
  pub worker_safe : PopSafe t.worker t.queue (total loud t.to_work)
  pub flushers_safe : (i : ℕ) → FlushSafe (t.flushers i) t.queue (total loud t.to_drained)
  pub none_lonely : total lonely t.to_drained ≡ 0

drained-not_lonely : (q : Queue) (c : Call) → lonely (wakes q c).drained ≡ 0
unfolding wakes
drained-not_lonely q c = ground arith

loud-silent : (n : Notify) → n ≢ silent → loud n ≡ 1
loud-silent n h = ground arith

calling-PopSafe :
    (q : Queue) (c : Call) (w : Worker) (k : ℕ)
    → PopSafe w q k
    → PopSafe w (call q c) (loud (wakes q c).work + k)
calling-PopSafe q c running k h = tt
calling-PopSafe q c (in_pop awake) k h = tt
calling-PopSafe q c (in_sleep awake) k h = tt
calling-PopSafe q c (in_pop asleep) k h = λ u. elim (Bool-cases (pop_blocks q)) [
  | inl b ↦ omega (arith, loud-silent (wakes q c).work (wakes-pop q c b u))
  | inr b ↦ omega (arith, h b)
]
calling-PopSafe q c (in_sleep asleep) k h = λ u. elim (Bool-cases (sleep_blocks q)) [
  | inl b ↦ omega (arith, loud-silent (wakes q c).work (wakes-sleep q c b u))
  | inr b ↦ omega (arith, h b)
]

calling-FlushSafe :
    (q : Queue) (c : Call) (w : Flusher) (k : ℕ)
    → FlushSafe w q k
    → FlushSafe w (call q c) (loud (wakes q c).drained + k)
calling-FlushSafe q c elsewhere k h = tt
calling-FlushSafe q c (in_flush awake) k h = tt
calling-FlushSafe q c (in_flush asleep) k h = λ u. elim (Bool-cases (flush_blocks q)) [
  | inl b ↦ omega (arith, loud-silent (wakes q c).drained (wakes-flush q c b u))
  | inr b ↦ omega (arith, h b)
]

calling-Safe : (t : Threads) (c : Call) → Safe t → Safe (calling t c)
unfolding calling
calling-Safe t c s = record {
  worker_safe = calling-PopSafe t.queue c t.worker (total loud t.to_work) s.worker_safe;
  flushers_safe =
      λ i. calling-FlushSafe t.queue c (t.flushers i) (total loud t.to_drained) (s.flushers_safe i);
  none_lonely = omega (arith, drained-not_lonely t.queue c, s.none_lonely);
}

-- A worker that has just tested its condition sleeps rightly.
pop_asleep : (q : Queue) (k : ℕ) → pop_blocks q ≡ true → PopSafe (in_pop asleep) q k
pop_asleep q k b u = cc

sleep_asleep : (q : Queue) (k : ℕ) → sleep_blocks q ≡ true → PopSafe (in_sleep asleep) q k
sleep_asleep q k b u = cc

flush_asleep : (q : Queue) (k : ℕ) → flush_blocks q ≡ true → FlushSafe (in_flush asleep) q k
flush_asleep q k b u = cc

roused-PopSafe : (w : Worker) (q : Queue) (k : ℕ) → PopSafe (rouse_worker one w) q k
roused-PopSafe running q k = tt
roused-PopSafe (in_pop w) q k = tt
roused-PopSafe (in_sleep w) q k = tt

rouse_worker-PopSafe :
    (n : Notify) (w : Worker) (q : Queue) (j k : ℕ)
    → j ≡ loud n + k
    → PopSafe w q j
    → PopSafe (rouse_worker n w) q k
rouse_worker-PopSafe silent w q j k e h = subst (PopSafe w q) (omega (arith, e)) h
rouse_worker-PopSafe one w q j k e h = roused-PopSafe w q k
rouse_worker-PopSafe everyone running q j k e h = tt
rouse_worker-PopSafe everyone (in_pop w) q j k e h = tt
rouse_worker-PopSafe everyone (in_sleep w) q j k e h = tt

rouse-FlushSafe : (x : Flusher) (q : Queue) (k : ℕ) → FlushSafe (rouse x) q k
rouse-FlushSafe elsewhere q k = tt
rouse-FlushSafe (in_flush w) q k = tt

update-FlushSafe :
    (f : ℕ → Flusher) (i : ℕ) (x : Flusher) (q : Queue) (k : ℕ)
    → FlushSafe x q k
    → ((j : ℕ) → FlushSafe (f j) q k)
    → (j : ℕ) → FlushSafe (update f i x j) q k
update-FlushSafe f i x q k h hs j = elim (Bool-cases (i == j)) [
  | inl e ↦ rw e h
  | inr e ↦ rw e (hs j)
]

Rouses-FlushSafe :
    {f g : ℕ → Flusher} {n : Notify} (q : Queue) (j k : ℕ)
    → Rouses f n g
    → j ≡ loud n + k
    → lonely n ≡ 0
    → ((i : ℕ) → FlushSafe (f i) q j)
    → (i : ℕ) → FlushSafe (g i) q k
Rouses-FlushSafe {f} q j k nobody e l h i = subst (FlushSafe (f i) q) (omega (arith, e)) (h i)
Rouses-FlushSafe q j k (somebody m) e l h i = absurd (omega arith)
Rouses-FlushSafe {f} q j k all_of_them e l h i = rouse-FlushSafe (f i) q k

with_worker :
    (t : Threads) (w : Worker)
    → Safe t
    → PopSafe w t.queue (total loud t.to_work)
    → Safe (record t { worker = w })
with_worker t w s h = record {
  worker_safe = h;
  flushers_safe = s.flushers_safe;
  none_lonely = s.none_lonely;
}

with_flusher :
    (t : Threads) (i : ℕ) (x : Flusher)
    → Safe t
    → FlushSafe x t.queue (total loud t.to_drained)
    → Safe (record t { flushers = update t.flushers i x })
with_flusher t i x s h = record {
  worker_safe = s.worker_safe;
  flushers_safe =
      update-FlushSafe t.flushers i x t.queue (total loud t.to_drained) h s.flushers_safe;
  none_lonely = s.none_lonely;
}

Step-Safe : {t u : Threads} → Step t u → Safe t → Safe u
Step-Safe {t} (caller_pushes r) s = calling-Safe t (pushes r) s
Step-Safe {t} caller_shuts_down s = calling-Safe t shuts_down s
Step-Safe {t} (worker_puts_back r e) s = calling-Safe t (push_fronts r) s
Step-Safe {t} (worker_finishes e) s = calling-Safe t finishes s
Step-Safe {t} (pop_takes e b) s = calling-Safe t pops s
Step-Safe {t} (pop_waits e b) s = with_worker t (in_pop asleep) s (pop_asleep t.queue _ b)
Step-Safe {t} (pop_waits_on e b) s = with_worker t (in_pop asleep) s (pop_asleep t.queue _ b)
Step-Safe {t} (pop_ends e) s = with_worker (calling t pops) running (calling-Safe t pops s) tt
Step-Safe {t} (sleep_waits e b) s = with_worker t (in_sleep asleep) s (sleep_asleep t.queue _ b)
Step-Safe {t} (sleep_waits_on e b) s = with_worker t (in_sleep asleep) s (sleep_asleep t.queue _ b)
Step-Safe {t} (sleep_ends e) s = with_worker t running s tt
Step-Safe {t} (flush_waits i e b) s =
    with_flusher t i (in_flush asleep) s (flush_asleep t.queue _ b)
Step-Safe {t} (flush_waits_on i e b) s =
    with_flusher t i (in_flush asleep) s (flush_asleep t.queue _ b)
Step-Safe {t} (flush_ends i e) s = with_flusher t i elsewhere s tt
Step-Safe {t} (notifies_work before n after e) s = record {
  worker_safe =
      rouse_worker-PopSafe n t.worker t.queue (total loud t.to_work) (total loud (before ++ after))
        (ap (total loud) e ∙ total-append loud before n after) s.worker_safe;
  flushers_safe = s.flushers_safe;
  none_lonely = s.none_lonely;
}
Step-Safe {t} (notifies_drained before n after f e h) s =
    let l : lonely n + total lonely (before ++ after) ≡ 0 =
      sym (ap (total lonely) e ∙ total-append lonely before n after) ∙ s.none_lonely in
    record {
      worker_safe = s.worker_safe;
      flushers_safe =
          Rouses-FlushSafe t.queue (total loud t.to_drained) (total loud (before ++ after)) h
            (ap (total loud) e ∙ total-append loud before n after) (omega (arith, l))
            s.flushers_safe;
      none_lonely = omega (arith, l);
    }
Step-Safe {t} worker_wakes s =
    with_worker t (rouse_worker one t.worker) s (roused-PopSafe t.worker t.queue _)
Step-Safe {t} (flusher_wakes i) s =
    with_flusher t i (rouse (t.flushers i)) s (rouse-FlushSafe (t.flushers i) t.queue _)

pub Reach-Safe : {n : ℕ} {t : Threads} → Reach n t → Safe t
Reach-Safe start = record { worker_safe = tt; flushers_safe = λ i. tt; none_lonely = refl }
Reach-Safe (later r s) = Step-Safe s (Reach-Safe r)
