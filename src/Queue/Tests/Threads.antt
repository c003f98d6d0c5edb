-- ===== src/Queue/Tests/Threads.antt =====
-- src/queue.rs: a run of the threads with a sleeping worker, a push and a flush.
use ecapplog_rust.Base.{◌≡◌, refl, [], true}
use ecapplog_rust.Queue.{one, new, push, pop_from, pop_blocks, flush_blocks, call, wakes}
use ecapplog_rust.Queue.Threads.{
  Threads, calling, caller_pushes, pop_waits, pop_ends, notifies_work, flush_waits, Reach, start,
  later,
}
use ecapplog_rust.Queue.Threads.Wakings.{worker_rightly, flusher_rightly, Reach-rightly}
use ecapplog_rust.Queue.Tests.{entry}

-- A state that the threads come to.
record Reached : Type 0 where
  now : Threads
  reach : Reach 4 now

abbrev asleep_in_pop : Reached
unfolding pop_blocks new
asleep_in_pop = record { now = _; reach = later start (pop_waits refl refl) }

-- An entry is pushed, another thread falls asleep in `flush`, and the worker is roused and takes the
-- entry.
abbrev taken : Reached
unfolding asleep_in_pop calling call wakes push pop_blocks flush_blocks new pop_from
taken =
    let r = later asleep_in_pop.reach (caller_pushes (entry 0)) in
    let r = later r (flush_waits 3 refl refl) in
    let r = later r (notifies_work [] one [] refl) in
    record { now = _; reach = later r (pop_ends refl) }

Reach-rightly_example :
    (worker_rightly taken.now.worker taken.now.queue ≡ true)
    × (flusher_rightly (taken.now.flushers 3) taken.now.queue ≡ true)
unfolding taken asleep_in_pop calling call wakes push pop_blocks flush_blocks new pop_from
Reach-rightly_example = Reach-rightly taken.reach 3 refl refl
