-- ===== src/Queue/Threads.antt =====
-- src/queue.rs: the threads at the queue. A wait tests its condition under the lock and falls asleep
-- as it releases it; a notification is sent after the lock was released, so that other threads may
-- come between; and a sleeper may be roused by a notification, by its timeout, or for no reason. Only
-- the worker waits on `work`; any thread may wait in `flush`, and the threads are numbered.
use ecapplog_rust.Base.{ℕ, true, false, List, [], ◌∷◌, ◌++◌, ◌≡◌, ◌==◌, if◌then◌else◌}
use ecapplog_rust.Record.{Record}
use ecapplog_rust.Queue.{
  Queue, Notify, silent, one, everyone, Call, pushes, push_fronts, pops, finishes, shuts_down, new,
  call, wakes, pop_blocks, flush_blocks, sleep_blocks,
}
pub mod Safety
pub mod Wakings
pub mod Calls

-- Asleep on the condition variable, or awake and about to take the lock and test the condition.
pub data Wait : Type 0 where
  asleep awake : Wait

-- The worker: in none of the queue's waits, or in the wait of `pop` or of `sleep_or_shutdown`.
pub data Worker : Type 0 where
  running : Worker
  in_pop in_sleep : Wait → Worker

pub data Flusher : Type 0 where
  elsewhere : Flusher
  in_flush : Wait → Flusher

-- `to_work` and `to_drained` hold the notifications that are still to be sent.
pub record Threads : Type 0 where
  pub queue : Queue
  pub worker : Worker
  pub flushers : ℕ → Flusher
  pub to_work : List Notify
  pub to_drained : List Notify

abbrev pub alone : ℕ → Threads
alone capacity = record {
  queue = new capacity;
  worker = running;
  flushers = λ i. elsewhere;
  to_work = [];
  to_drained = [];
}

-- The critical section of a call, with what it is to notify.
unfoldable pub calling : Threads → Call → Threads
unfolding call wakes
calling t c = record t {
  queue = call t.queue c;
  to_work = (wakes t.queue c).work ∷ t.to_work;
  to_drained = (wakes t.queue c).drained ∷ t.to_drained;
}

abbrev pub update : (ℕ → Flusher) → ℕ → Flusher → ℕ → Flusher
update f i x j = if i == j then x else f j

-- The only sleeper on `work` is roused by a notification of either kind.
abbrev pub rouse_worker : Notify → Worker → Worker
rouse_worker silent w = w
rouse_worker n (in_pop w) = in_pop awake
rouse_worker n (in_sleep w) = in_sleep awake
rouse_worker n running = running

abbrev pub rouse : Flusher → Flusher
rouse elsewhere = elsewhere
rouse (in_flush w) = in_flush awake

-- What a notification does to the threads in `flush`: `notify_one` rouses one of them.
pub data Rouses (f : ℕ → Flusher) : Notify → (ℕ → Flusher) → Type 0 where
  nobody : Rouses f silent f
  somebody : (i : ℕ) → Rouses f one (update f i (rouse (f i)))
  all_of_them : Rouses f everyone (λ i. rouse (f i))

pub data Step (t : Threads) : Threads → Type 0 where
  caller_pushes : (r : Record) → Step t (calling t (pushes r))
  caller_shuts_down : Step t (calling t shuts_down)
  worker_puts_back : (r : Record) → t.worker ≡ running → Step t (calling t (push_fronts r))
  worker_finishes : t.worker ≡ running → Step t (calling t finishes)
  pop_takes : t.worker ≡ running → pop_blocks t.queue ≡ false → Step t (calling t pops)
  pop_waits :
      t.worker ≡ running → pop_blocks t.queue ≡ true → Step t (record t { worker = in_pop asleep })
  pop_waits_on :
      t.worker ≡ in_pop awake
      → pop_blocks t.queue ≡ true
      → Step t (record t { worker = in_pop asleep })
  -- The condition has ended, or the timeout has passed.
  pop_ends : t.worker ≡ in_pop awake → Step t (record (calling t pops) { worker = running })
  sleep_waits :
      t.worker ≡ running
      → sleep_blocks t.queue ≡ true
      → Step t (record t { worker = in_sleep asleep })
  sleep_waits_on :
      t.worker ≡ in_sleep awake
      → sleep_blocks t.queue ≡ true
      → Step t (record t { worker = in_sleep asleep })
  sleep_ends : t.worker ≡ in_sleep awake → Step t (record t { worker = running })
  flush_waits :
      (i : ℕ)
      → t.flushers i ≡ elsewhere
      → flush_blocks t.queue ≡ true
      → Step t (record t { flushers = update t.flushers i (in_flush asleep) })
  flush_waits_on :
      (i : ℕ)
      → t.flushers i ≡ in_flush awake
      → flush_blocks t.queue ≡ true
      → Step t (record t { flushers = update t.flushers i (in_flush asleep) })
  flush_ends :
      (i : ℕ)
      → t.flushers i ≡ in_flush awake
      → Step t (record t { flushers = update t.flushers i elsewhere })
  notifies_work :
      (before : List Notify) (n : Notify) (after : List Notify)
      → t.to_work ≡ before ++ n ∷ after
      → Step t (record t { worker = rouse_worker n t.worker; to_work = before ++ after })
  notifies_drained :
      (before : List Notify) (n : Notify) (after : List Notify) (f : ℕ → Flusher)
      → t.to_drained ≡ before ++ n ∷ after
      → Rouses t.flushers n f
      → Step t (record t { flushers = f; to_drained = before ++ after })
  worker_wakes : Step t (record t { worker = rouse_worker one t.worker })
  flusher_wakes :
      (i : ℕ) → Step t (record t { flushers = update t.flushers i (rouse (t.flushers i)) })

pub data Reach (capacity : ℕ) : Threads → Type 0 where
  start : Reach capacity (alone capacity)
  later : {t u : Threads} → Reach capacity t → Step t u → Reach capacity u
