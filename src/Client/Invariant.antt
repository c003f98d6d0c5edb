-- ===== src/Client/Invariant.antt =====
-- src/client.rs with src/queue.rs: what holds of the worker and its queue in every interleaving.
use ecapplog_rust.Base.{
  ℕ, ◌+◌, ◌%◌, ◌≡◌, refl, ◌∙◌, sym, subst, List, [], ◌∷◌, Bool, true, false, arith, length,
  length-append, is_nil,
}
use ecapplog_rust.Record.{Record}
use ecapplog_rust.Queue.{
  Queue, u64_mod, new, push, push_front, pop, pop_from, finish, flush, request_shutdown, call,
  pushes, push_fronts, finishes, shuts_down,
}
use ecapplog_rust.Queue.Bounds.{IsValid, call-IsValid, pop_from-IsValid}
use ecapplog_rust.Proto.{Object}
use ecapplog_rust.Client.{
  Config, connect, stream, refused, Attempt, Serialized, WriteOutcome, complete, broken,
  WriteResult, ok, discard, connection, write_record,
}
use ecapplog_rust.Base.Text.{Text}
use ecapplog_rust.Client.Worker.{
  Pc, reconnect, connecting, greeting, checking, popping, finishing, pausing, done, writing,
  requeueing, settling, World, start, begin_log, end_log, close, Outcome, Event, logs, tells,
  closes, ticks, works, work_at, at_requeueing, after_connect, at_greeting, after_pop, after_write,
  work, step, run,
}

-- Whether the worker is between a `pop` and the `finish` after it.
abbrev pub is_busy : Pc → Bool
is_busy (writing r) = true
is_busy (requeueing r) = true
is_busy (settling t) = true
is_busy finishing = true
is_busy _ = false

-- The entry that is neither queued nor settled.
abbrev pub held : Pc → List Record
held (writing r) = r ∷ []
held (requeueing r) = r ∷ []
held _ = []

-- The entries that a world with its worker at `p` accounts for.
abbrev pub accounted : World → Pc → ℕ
accounted w p =
    length w.written + length w.discarded + length (held p) + length w.queue.items + w.queue.dropped

pub record At (w : World) (p : Pc) : Type 0 where
  pub valid : IsValid w.queue
  pub busy_is : w.queue.busy ≡ is_busy p
  pub counted : accounted w p % u64_mod ≡ length w.logged % u64_mod

-- The queue is valid, it is marked busy just while the worker is between a `pop` and the `finish`
-- after it, and every entry that was logged is written, discarded, held by the worker, queued or
-- counted as dropped, up to the width of the drop counter.
abbrev pub Inv : World → Type 0
Inv w = At w w.pc

start-Inv : (n : ℕ) → Inv (start (new n))
unfolding start new
start-Inv n = ground arith

-- One entry more is queued or counted as dropped.
push_count :
    (q : Queue) (r : Record) (xs : List Record)
    → q.items ≡ xs
    → IsValid q
    → ((length (push q r).0.items + (push q r).0.dropped) % u64_mod
        ≡ (length q.items + q.dropped + 1) % u64_mod)
      × ((push q r).0.busy ≡ q.busy)
unfolding push
push_count q r [] e v = ground (arith, length-append q.items (r ∷ []))
push_count q r (x ∷ xs) e v =
    ground (arith, length-append q.items (r ∷ []), length-append xs (r ∷ []))

push_front_count :
    (q : Queue) (r : Record)
    → ((length (push_front q r).0.items + (push_front q r).0.dropped) % u64_mod
        ≡ (length q.items + q.dropped + 1) % u64_mod)
      × ((push_front q r).0.busy ≡ q.busy)
unfolding push_front
push_front_count q r = ground arith

module _ (q : Queue) (v : IsValid q) where
  push-IsValid : (r : Record) → IsValid (push q r).0
  unfolding call
  push-IsValid r = call-IsValid q (pushes r) v

  push_front-IsValid : (r : Record) → IsValid (push_front q r).0
  unfolding call
  push_front-IsValid r = call-IsValid q (push_fronts r) v

  finish-IsValid : IsValid (finish q).0
  unfolding call
  finish-IsValid = call-IsValid q finishes v

  shutdown-IsValid : IsValid (request_shutdown q).0
  unfolding call
  shutdown-IsValid = call-IsValid q shuts_down v

module _ (c : Config) (w : World) (v : Inv w) where
  log-Inv : (r : Record) → Inv (begin_log r w)
  unfolding begin_log
  log-Inv r =
      let p = push_count w.queue r w.queue.items refl v.valid in
      record {
        valid = push-IsValid w.queue v.valid r;
        busy_is = p.1 ∙ v.busy_is;
        counted = omega (arith, p.0, v.counted, length-append w.logged (r ∷ []));
      }

  close-Inv : Inv (close w)
  unfolding close
  close-Inv = record {
    valid = shutdown-IsValid w.queue v.valid;
    busy_is = unfold request_shutdown in v.busy_is;
    counted = unfold request_shutdown in v.counted;
  }

  tell-Inv : (k : ℕ) → Inv (end_log c k w)
  unfolding end_log
  tell-Inv k = record { valid = v.valid; busy_is = v.busy_is; counted = v.counted }

  tick-Inv : (n : ℕ) → Inv (record w { now = w.now + n })
  tick-Inv n = record { valid = v.valid; busy_is = v.busy_is; counted = v.counted }

module _ (c : Config) (w : World) where
  after_connect-Inv : (a : Attempt) → At w connecting → Inv (after_connect c w a)
  unfolding after_connect
  after_connect-Inv (stream a) v = ground arith
  after_connect-Inv (refused e) v = ground arith

  at_greeting-Inv : (o : WriteOutcome) → At w greeting → Inv (at_greeting c o w)
  unfolding at_greeting
  at_greeting-Inv complete v = ground arith
  at_greeting-Inv (broken k e) v = ground arith

  after_write-Inv :
      (r : Record) (x : WriteResult × Text) → At w (writing r) → Inv (after_write c w r x)
  unfolding after_write
  after_write-Inv r (ok, bytes) v = ground (arith, length-append w.written (r ∷ []))
  after_write-Inv r (discard e, bytes) v = ground (arith, length-append w.discarded (r ∷ []))
  after_write-Inv r (connection e, bytes) v = ground arith

  after_pop-Inv :
      (xs : List Record)
      → w.queue.items ≡ xs
      → At w popping
      → Inv (after_pop w (pop_from w.queue xs))
  unfolding after_pop pop_from
  after_pop-Inv [] e v = ground arith
  after_pop-Inv (x ∷ xs) e v = ground (arith, pop_from-IsValid w.queue (x ∷ xs) e v.valid)

  at_requeueing-Inv : (r : Record) → At w (requeueing r) → Inv (at_requeueing r w)
  unfolding at_requeueing
  at_requeueing-Inv r v =
      ground (arith, push_front_count w.queue r, push_front-IsValid w.queue v.valid r)

  work_at-Inv :
      (to_writer : Object → Serialized) (o : Outcome) (p : Pc)
      → w.pc ≡ p
      → At w p
      → Inv (work_at c to_writer o w p)
  unfolding work_at finish pop
  work_at-Inv to_writer o reconnect e v = ground arith
  work_at-Inv to_writer o connecting e v =
      after_connect-Inv (connect c o.network w.flush_deadline w.now) v
  work_at-Inv to_writer o greeting e v = at_greeting-Inv o.write v
  work_at-Inv to_writer o checking e v = ground arith
  work_at-Inv to_writer o popping e v = after_pop-Inv w.queue.items refl v
  work_at-Inv to_writer o (writing r) e v = after_write-Inv r (write_record to_writer o.write r) v
  work_at-Inv to_writer o finishing e v = ground (arith, finish-IsValid w.queue v.valid)
  work_at-Inv to_writer o (requeueing r) e v = at_requeueing-Inv r v
  work_at-Inv to_writer o (settling total) e v = ground (arith, finish-IsValid w.queue v.valid)
  work_at-Inv to_writer o pausing e v = ground arith
  work_at-Inv to_writer o done e v = subst (At w) (sym e) v

step-Inv :
    (c : Config) (to_writer : Object → Serialized) (w : World) (e : Event)
    → Inv w
    → Inv (step c to_writer w e)
unfolding step work
step-Inv c to_writer w (logs r) v = log-Inv c w v r
step-Inv c to_writer w (tells k) v = tell-Inv c w v k
step-Inv c to_writer w closes v = close-Inv c w v
step-Inv c to_writer w (ticks n) v = tick-Inv c w v n
step-Inv c to_writer w (works o) v = work_at-Inv c w to_writer o w.pc refl v

run-Inv :
    (c : Config) (to_writer : Object → Serialized) (w : World) (es : List Event)
    → Inv w
    → Inv (run c to_writer w es)
unfolding run
run-Inv c to_writer w [] v = v
run-Inv c to_writer w (e ∷ es) v =
    run-Inv c to_writer (step c to_writer w e) es (step-Inv c to_writer w e v)

-- The invariant holds of a new client after any interleaving of its callers, the clock and the
-- worker: the queue is within its capacity, `busy` is set exactly while the worker has an entry in
-- hand, and every logged entry is written, discarded as unsendable, held, queued or counted as
-- dropped. The counts agree modulo 2^64, the range of the drop counter.
pub run-start-Inv :
    (c : Config) (to_writer : Object → Serialized) (n : ℕ) (es : List Event)
    → Inv (run c to_writer (start (new n)) es)
run-start-Inv c to_writer n es = run-Inv c to_writer (start (new n)) es (start-Inv n)

held-idle : (p : Pc) → is_busy p ≡ false → length (held p) ≡ 0
held-idle (writing r) h = cc
held-idle (requeueing r) h = cc
held-idle (settling t) h = cc
held-idle finishing h = cc
held-idle _ h = refl

length-is_nil : (xs : List Record) → is_nil xs ≡ true → length xs ≡ 0
length-is_nil [] h = refl
length-is_nil (x ∷ xs) h = cc

flush-true : (q : Queue) → flush q ≡ true → (is_nil q.items ≡ true) × (q.busy ≡ false)
unfolding flush
flush-true q h = ground arith

flushed :
    (w : World) (p : Pc)
    → At w p
    → flush w.queue ≡ true
    → (length (held p) ≡ 0) × (length w.queue.items ≡ 0)
flushed w p v f =
    let t = flush-true w.queue f in
    (held-idle p (sym v.busy_is ∙ t.1), length-is_nil w.queue.items t.0)

-- When `flush` returns true, nothing is in flight: every entry logged so far was written to a
-- socket, discarded as unsendable, or counted as dropped. The counts agree modulo 2^64.
pub flush-settled :
    (c : Config) (to_writer : Object → Serialized) (n : ℕ) (es : List Event)
    → flush (run c to_writer (start (new n)) es).queue ≡ true
    → let w = run c to_writer (start (new n)) es in
      (length w.written + length w.discarded + w.queue.dropped) % u64_mod
      ≡ length w.logged % u64_mod
flush-settled c to_writer n es f =
    let v = run-start-Inv c to_writer n es in omega (arith, v.counted, flushed _ _ v f)
