-- ===== src/Queue.antt =====
-- src/queue.rs: the bounded queue. A method is one critical section on the locked state, and the
-- result says which condition variables it notifies. A wait releases the lock, so `pop`, `flush` and
-- `sleep_or_shutdown` are given the state in which their wait ended; `pop_blocks`, `flush_blocks`
-- and `sleep_blocks` are the conditions under which that wait goes on.
use ecapplog_rust.Base.{
  ℕ, ◌+◌, ◌%◌, ◌^◌, max, Bool, true, false, not, ◌&&◌, ◌||◌, List, [], ◌∷◌, ◌++◌, Option, none,
  some, length, is_nil, leb, if◌then◌else◌,
}
use ecapplog_rust.Record.{Record}
pub mod Bounds
pub mod Drops
pub mod Wakeups
pub mod Threads
pub mod Requeue
mod Tests

pub data Pop : Type 0 where
  item : Record → Pop
  shut_down idle : Pop

pub record State : Type 0 where
  pub items : List Record
  pub busy : Bool
  pub shutdown : Bool

pub record Queue : Type 0 where
  pub state : State
  pub open state use *
  pub capacity : ℕ
  pub dropped : ℕ

-- `notify_one` and `notify_all` on a condition variable.
pub data Notify : Type 0 where
  silent one everyone : Notify

pub record Wakes : Type 0 where
  pub work : Notify
  pub drained : Notify

abbrev quiet : Wakes
quiet = record { work = silent; drained = silent }

abbrev wake_worker : Wakes
wake_worker = record { work = one; drained = silent }

unfoldable pub new : ℕ → Queue
new capacity = record {
  state = record { items = []; busy = false; shutdown = false };
  capacity = max capacity 1;
  dropped = 0;
}

-- `AtomicU64::fetch_add` wraps.
abbrev pub u64_mod : ℕ
u64_mod = 2 ^ 64

unfoldable pub count_drop : Queue → Queue
count_drop q = record q { dropped = (q.dropped + 1) % u64_mod }

abbrev put_items : Queue → List Record → Queue
put_items q items = record q { state = record q.state { items = items } }

-- `pop_front`.
abbrev pub rest_of : List Record → List Record
rest_of [] = []
rest_of (r ∷ rs) = rs

-- The result is the running total when something was discarded. It is a 64-bit sum as well.
unfoldable pub push : Queue → Record → Queue × Option ℕ × Wakes
unfolding count_drop
push q r =
    if q.shutdown
    then (count_drop q, some ((q.dropped + 1) % u64_mod), quiet)
    else if leb q.capacity (length q.items)
    then (
      put_items (count_drop q) (rest_of q.items ++ r ∷ []),
      some ((q.dropped + 1) % u64_mod),
      wake_worker,
    )
    else (put_items q (q.items ++ r ∷ []), none, wake_worker)

unfoldable pub push_front : Queue → Record → Queue × Option ℕ × Wakes
unfolding count_drop
push_front q r =
    if leb q.capacity (length q.items)
    then (count_drop q, some ((q.dropped + 1) % u64_mod), quiet)
    else (put_items q (r ∷ q.items), none, wake_worker)

unfoldable pub pop_blocks : Queue → Bool
pop_blocks q = is_nil q.items && not q.shutdown

unfoldable pub pop_from : Queue → List Record → Queue × Pop
pop_from q [] = (q, if q.shutdown then shut_down else idle)
pop_from q (r ∷ rs) = (record q { state = record q.state { items = rs; busy = true } }, item r)

unfoldable pub pop : Queue → Queue × Pop
unfolding pop_from
pop q = pop_from q q.items

unfoldable pub finish : Queue → Queue × Wakes
finish q = (
  record q { state = record q.state { busy = false } },
  record { work = silent; drained = if is_nil q.items then everyone else silent },
)

unfoldable pub flush_blocks : Queue → Bool
flush_blocks q = not (is_nil q.items) || q.busy

unfoldable pub flush : Queue → Bool
flush q = is_nil q.items && not q.busy

unfoldable pub request_shutdown : Queue → Queue × Wakes
request_shutdown q = (
  record q { state = record q.state { shutdown = true } },
  record { work = everyone; drained = everyone },
)

unfoldable pub is_empty : Queue → Bool
is_empty q = is_nil q.items

unfoldable pub sleep_blocks : Queue → Bool
sleep_blocks q = not q.shutdown

unfoldable pub sleep_or_shutdown : Queue → Bool
sleep_or_shutdown q = q.shutdown

-- The calls that change the state, as the threads may interleave them.
pub data Call : Type 0 where
  pushes push_fronts : Record → Call
  pops finishes shuts_down : Call

unfoldable pub call : Queue → Call → Queue
unfolding push push_front pop finish request_shutdown
call q (pushes r) = (push q r).0
call q (push_fronts r) = (push_front q r).0
call q pops = (pop q).0
call q finishes = (finish q).0
call q shuts_down = (request_shutdown q).0

unfoldable pub wakes : Queue → Call → Wakes
unfolding push push_front pop finish request_shutdown
wakes q (pushes r) = (push q r).2
wakes q (push_fronts r) = (push_front q r).2
wakes q pops = quiet
wakes q finishes = (finish q).1
wakes q shuts_down = (request_shutdown q).1

unfoldable pub run : Queue → List Call → Queue
unfolding call
run q [] = q
run q (c ∷ cs) = run (call q c) cs
