-- ===== src/Client/Worker.antt =====
-- src/client.rs: the worker thread and the callers, as steps on one state. Each place of the worker
-- at which another thread may come between is a place of `Pc`. The environment chooses the order of
-- the steps, the passing of time, and how connects and writes come out.
use ecapplog_rust.Base.{
  ℕ, ◌+◌, not, ◌||◌, List, [], ◌∷◌, ◌++◌, Option, none, some, leb, length, get_elem?, erase_idx,
  if◌then◌else◌,
}
use ecapplog_rust.Base.Text.{Text}
use ecapplog_rust.Error.{Error}
use ecapplog_rust.Record.{Record}
use ecapplog_rust.Queue.{
  Queue, Pop, item, shut_down, idle, push, push_front, pop, finish, request_shutdown, is_empty,
  sleep_or_shutdown,
}
use ecapplog_rust.Proto.{Object, cmd_banner, encode_frame, banner_payload}
use ecapplog_rust.Client.{
  Config, report, Network, Attempt, stream, refused, connect, Serialized, WriteOutcome, complete,
  broken, WriteResult, ok, discard, connection, accepted, write_record,
}

pub data Pc : Type 0 where
  reconnect connecting greeting checking popping finishing pausing done : Pc
  writing requeueing : Record → Pc
  settling : Option ℕ → Pc

-- `streams` holds the bytes that each connection's socket took, the newest connection first.
-- `telling` holds the totals of the drops that calls of `log` have made and not reported yet.
-- `logged`, `written` and `discarded` are history: the entries passed to `log`, those whose write
-- succeeded, and those found unsendable, in order.
pub record World : Type 0 where
  pub queue : Queue
  pub pc : Pc
  pub flush_deadline : Option ℕ
  pub now : ℕ
  pub streams : List Text
  pub telling : List ℕ
  pub reported : List Error
  pub logged : List Record
  pub written : List Record
  pub discarded : List Record

unfoldable pub start : Queue → World
start q = record {
  queue = q;
  pc = reconnect;
  flush_deadline = none;
  now = 0;
  streams = [];
  telling = [];
  reported = [];
  logged = [];
  written = [];
  discarded = [];
}

-- `lag` is the time between the two readings of the clock at a deadline, and `latest` the last instant
-- that the clock can represent.
pub record Outcome : Type 0 where
  pub network : Network
  pub write : WriteOutcome
  pub lag : ℕ
  pub latest : ℕ

unfoldable pub report_full : Config → List Error → ℕ → Option ℕ → List Error
report_full c es capacity none = es
report_full c es capacity (some total) = report c es (Error.queue_full capacity total)

abbrev pub add_telling : List ℕ → Option ℕ → List ℕ
add_telling totals none = totals
add_telling totals (some total) = totals ++ total ∷ []

-- `Client::log`: the push. It releases the lock, and other threads may come before the report.
unfoldable pub begin_log : Record → World → World
begin_log r w =
    let p = push w.queue r in
    record w { queue = p.0; telling = add_telling w.telling p.1; logged = w.logged ++ r ∷ [] }

-- The report of the call that stands at `k` among those that have one to make.
unfoldable pub end_log : Config → ℕ → World → World
end_log c k w = record w {
  telling = erase_idx w.telling k;
  reported = report_full c w.reported w.queue.capacity (get_elem? w.telling k);
}

-- A call of `log` in which no other thread comes between.
unfoldable pub log : Config → Record → World → World
unfolding begin_log end_log
log c r w = end_log c (length w.telling) (begin_log r w)

-- `Inner::close` up to the join, which waits for `done`.
unfoldable pub close : World → World
close w = record w { queue = (request_shutdown w.queue).0 }

-- `Instant + Duration`, which panics at a sum that cannot be represented.
abbrev pub instant_add : ℕ → ℕ → ℕ → Option ℕ
instant_add latest i d = if leb (i + d) latest then some (i + d) else none

-- `get_or_insert_with`.
abbrev pub get_deadline : Config → ℕ → World → Option ℕ
get_deadline c latest w = elim w.flush_deadline [
  | some d ↦ some d
  | none ↦ instant_add latest w.now c.flush_timeout
]

-- The test after it: stop at the deadline, or go on to `next`.
unfoldable pub test_deadline : ℕ → World → Pc → ℕ → World
test_deadline lag w next d = record w {
  flush_deadline = some d;
  now = w.now + lag;
  pc = if leb d (w.now + lag) then done else next;
}

-- Both. A panic ends the thread, and nothing reads what its join returns.
unfoldable pub until_deadline : Config → Outcome → World → Pc → World
unfolding test_deadline
until_deadline c o w next = elim (get_deadline c o.latest w) [
  | none ↦ record w { pc = done }
  | some d ↦ test_deadline o.lag w next d
]

-- The head of the outer loop.
unfoldable pub at_reconnect : Config → Outcome → World → World
unfolding until_deadline
at_reconnect c o w =
    if w.queue.shutdown
    then (if not c.flush_on_close || is_empty w.queue
        then record w { pc = done }
        else until_deadline c o w connecting)
    else record w { pc = connecting }

unfoldable pub after_connect : Config → World → Attempt → World
after_connect c w (stream a) = record w { streams = [] ∷ w.streams; pc = greeting }
after_connect c w (refused e) = record w { reported = report c w.reported e; pc = pausing }

-- Bytes go to the newest connection.
abbrev pub onto : Text → List Text → List Text
onto bytes [] = []
onto bytes (s ∷ ss) = (s ++ bytes) ∷ ss

abbrev banner_frame : Config → Text
banner_frame c = encode_frame cmd_banner (banner_payload c.app_name) []

unfoldable pub at_greeting : Config → WriteOutcome → World → World
at_greeting c complete w = record w {
  streams = onto (accepted complete (banner_frame c)) w.streams;
  pc = checking;
}
at_greeting c (broken n e) w = record w {
  streams = onto (accepted (broken n e) (banner_frame c)) w.streams;
  reported = report c w.reported (Error.write e);
  pc = pausing;
}

-- The head of the inner loop.
unfoldable pub at_checking : Config → Outcome → World → World
unfolding until_deadline
at_checking c o w =
    if w.queue.shutdown
    then (if not c.flush_on_close then record w { pc = done } else until_deadline c o w popping)
    else record w { pc = popping }

unfoldable pub after_pop : World → Queue × Pop → World
after_pop w (q, item r) = record w { queue = q; pc = writing r }
after_pop w (q, shut_down) = record w { queue = q; pc = done }
after_pop w (q, idle) = record w { queue = q; pc = checking }

unfoldable pub after_write : Config → World → Record → WriteResult × Text → World
after_write c w r (ok, bytes) = record w {
  streams = onto bytes w.streams;
  written = w.written ++ r ∷ [];
  pc = finishing;
}
after_write c w r (discard e, bytes) = record w {
  streams = onto bytes w.streams;
  reported = report c w.reported e;
  discarded = w.discarded ++ r ∷ [];
  pc = finishing;
}
after_write c w r (connection e, bytes) = record w {
  streams = onto bytes w.streams;
  reported = report c w.reported e;
  pc = requeueing r;
}

unfoldable pub at_requeueing : Record → World → World
at_requeueing r w = let p = push_front w.queue r in record w { queue = p.0; pc = settling p.1 }

unfoldable pub at_settling : Config → Option ℕ → World → World
at_settling c total w = record w {
  queue = (finish w.queue).0;
  reported = report_full c w.reported w.queue.capacity total;
  pc = pausing;
}

-- The end of `sleep_or_shutdown`.
unfoldable pub at_pausing : World → World
at_pausing w = record w { pc = if sleep_or_shutdown w.queue then done else reconnect }

unfoldable pub work_at : Config → (Object → Serialized) → Outcome → World → Pc → World
unfolding at_reconnect after_connect at_greeting at_checking after_pop after_write at_requeueing
    at_settling at_pausing
work_at c to_writer o w reconnect = at_reconnect c o w
work_at c to_writer o w connecting = after_connect c w (connect c o.network w.flush_deadline w.now)
work_at c to_writer o w greeting = at_greeting c o.write w
work_at c to_writer o w checking = at_checking c o w
work_at c to_writer o w popping = after_pop w (pop w.queue)
work_at c to_writer o w (writing r) = after_write c w r (write_record to_writer o.write r)
work_at c to_writer o w finishing = record w { queue = (finish w.queue).0; pc = checking }
work_at c to_writer o w (requeueing r) = at_requeueing r w
work_at c to_writer o w (settling total) = at_settling c total w
work_at c to_writer o w pausing = at_pausing w
work_at c to_writer o w done = w

-- One step of the worker.
unfoldable pub work : Config → (Object → Serialized) → Outcome → World → World
work c to_writer o w = work_at c to_writer o w w.pc

pub data Event : Type 0 where
  logs : Record → Event
  tells : ℕ → Event
  closes : Event
  ticks : ℕ → Event
  works : Outcome → Event

unfoldable pub step : Config → (Object → Serialized) → World → Event → World
unfolding begin_log end_log close
step c to_writer w (logs r) = begin_log r w
step c to_writer w (tells k) = end_log c k w
step c to_writer w closes = close w
step c to_writer w (ticks n) = record w { now = w.now + n }
step c to_writer w (works o) = work c to_writer o w

-- Every interleaving of the callers, the clock and the worker is a list of events.
unfoldable pub run : Config → (Object → Serialized) → World → List Event → World
run c to_writer w [] = w
run c to_writer w (e ∷ es) = run c to_writer (step c to_writer w e) es
