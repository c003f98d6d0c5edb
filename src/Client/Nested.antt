-- ===== src/Client/Nested.antt =====
-- src/client.rs: a callback that itself logs on the client. `Client::log` calls it when no lock is
-- held, so each entry that it logs is a whole call of `log` within the first, and the other threads go
-- on meanwhile. `depth` is how many such calls the thread's stack has room for; past it the program
-- ends, which is `none`.
use ecapplog_rust.Base.{
  ℕ, zero, suc, ◌+◌, ◌%◌, ◌<◌, ◌≡◌, ◌≢◌, refl, List, [], ◌∷◌, ◌++◌, true, false, Option, none, some,
  arith, length, leb,
}
use ecapplog_rust.Error.{Error, queue_full}
use ecapplog_rust.Record.{Record}
use ecapplog_rust.Queue.{Queue, u64_mod, push}
use ecapplog_rust.Proto.{Object}
use ecapplog_rust.Client.{Config, Serialized}
use ecapplog_rust.Client.Shutdown.{step-Falls}
use ecapplog_rust.Client.Worker.{World, Event, begin_log, step, run}

-- The callback's entries, one after the other.
unfoldable pub log_each : (World → Record → Option World) → List Record → World → Option World
log_each log_one [] w = some w
log_each log_one (r ∷ rs) w = elim (log_one w r) [ none ↦ none | some v ↦ log_each log_one rs v ]

-- `on_error` gives the entries that the callback logs when it is told of an error, and `others` what
-- the other threads do after the push of each call, by the room that is left then.
module _ (c : Config) (to_writer : Object → Serialized) (on_error : Error → List Record)
    (others : ℕ → List Event) where
  -- `Config::report` with this callback.
  unfoldable pub tell : (World → Record → Option World) → Error → World → Option World
  unfolding log_each
  tell log_one e w = log_each log_one (on_error e) (record w { reported = w.reported ++ e ∷ [] })

  unfoldable pub told_full : (World → Record → Option World) → ℕ → Option ℕ → World → Option World
  unfolding tell
  told_full log_one capacity none w = some w
  told_full log_one capacity (some total) w = tell log_one (queue_full capacity total) w

  -- `Client::log`: the push, what other threads do once the lock is released, and the report.
  unfoldable pub log_nested : ℕ → World → Record → Option World
  unfolding told_full
  log_nested zero w r = none
  log_nested (suc depth) w r =
      let p = push w.queue r in
      told_full (log_nested depth) w.queue.capacity p.1
        (run c to_writer (record w { queue = p.0; logged = w.logged ++ r ∷ [] }) (others depth))

-- After a shutdown a push drops its entry, and nothing takes the shutdown back.
push-down :
    (q : Queue) (r : Record)
    → q.shutdown ≡ true
    → ((push q r).1 ≡ some ((q.dropped + 1) % u64_mod)) × ((push q r).0.shutdown ≡ true)
unfolding push
push-down q r h = rw h (refl, refl)

run-down :
    (c : Config) (to_writer : Object → Serialized) (w : World) (es : List Event)
    → w.queue.shutdown ≡ true
    → (run c to_writer w es).queue.shutdown ≡ true
unfolding run
run-down c to_writer w [] h = h
run-down c to_writer w (e ∷ es) h =
    run-down c to_writer (step c to_writer w e) es (step-Falls c w h to_writer e).0

log_each-none :
    (log_one : World → Record → Option World) (rs : List Record) (w : World)
    → rs ≢ []
    → ((r : Record) → log_one w r ≡ none)
    → log_each log_one rs w ≡ none
unfolding log_each
log_each-none log_one [] w h k = absurd (h refl)
log_each-none log_one (r ∷ rs) w h k = rw (k r, log_each) refl

-- Once shutdown was requested, a callback that logs something whenever it is told of a full queue makes
-- no call of `log` return: whatever the worker, the other callers and the clock do between the calls,
-- and whatever is queued, they nest until the stack is used up, however much room it has.
pub log_nested-down :
    (c : Config) (to_writer : Object → Serialized) (on_error : Error → List Record)
    (others : ℕ → List Event) (depth : ℕ) (w : World) (r : Record)
    → ((capacity total : ℕ) → on_error (queue_full capacity total) ≢ [])
    → w.queue.shutdown ≡ true
    → log_nested c to_writer on_error others depth w r ≡ none
unfolding log_nested tell told_full
log_nested-down c to_writer on_error others zero w r l h = refl
log_nested-down c to_writer on_error others (suc depth) w r l h =
    let (e, h') = push-down w.queue r h in
    let v =
      run c to_writer (record w { queue = (push w.queue r).0; logged = w.logged ++ r ∷ [] })
        (others depth) in
    let d : v.queue.shutdown ≡ true = run-down c to_writer _ (others depth) h' in
    rw e (
      log_each-none (log_nested c to_writer on_error others depth) _ _
        (l w.queue.capacity ((w.queue.dropped + 1) % u64_mod))
        (λ s. log_nested-down c to_writer on_error others depth _ s l d))

-- Where the queue has room, the call returns, and the callback is not told of anything.
log_nested-room :
    (c : Config) (to_writer : Object → Serialized) (on_error : Error → List Record)
    (others : ℕ → List Event) (depth : ℕ) (w : World) (r : Record)
    → w.queue.shutdown ≡ false
    → length w.queue.items < w.queue.capacity
    → log_nested c to_writer on_error others (suc depth) w r
      ≡ some (run c to_writer (begin_log r w) (others depth))
unfolding log_nested told_full push begin_log
log_nested-room c to_writer on_error others depth w r s h =
    let e : leb w.queue.capacity (length w.queue.items) ≡ false = ground arith in rw (s, e) refl
