-- ===== src/Client/Lifecycle/Ends.antt =====
-- src/client.rs: what has become of the worker when a call of `close`, or the drop of the last clone,
-- waits or is over.
use ecapplog_rust.Base.{
  ℕ, ◌+◌, ◌*◌, ◌<◌, ◌≤◌, ◌≡◌, ◌≢◌, ◌%◌, refl, sym, ◌∙◌, ap, Bool, true, false, List, [], ◌∷◌, ◌++◌,
  arith, length, append-nil, subst,
}
use ecapplog_rust.Queue.{new, u64_mod, request_shutdown}
use ecapplog_rust.Proto.{Object}
use ecapplog_rust.Client.{Config, Serialized}
use ecapplog_rust.Client.Worker.{
  World, Event, logs, tells, closes, ticks, works, done, start, step, run, begin_log, end_log,
  close, work, work_at,
}
use ecapplog_rust.Client.Invariant.{Inv, held, run-start-Inv}
use ecapplog_rust.Client.Shutdown.{worker_steps, run-done, step-Falls}
use ecapplog_rust.Client.Lifecycle.{
  Dropping, in_use, joining, over, Inner, built, close_takes, drop_takes, after, Step, clones_it,
  drops_clone, logs_entry, tells_drop, close_begins, close_goes_on, close_returns, drops_last,
  drop_goes_on, drop_returns, time_passes, worker_works, Reach, begin, next,
}

abbrev in_join : Dropping → ℕ
in_join joining = 1
in_join _ = 0

-- The calls that wait for the worker's thread to end.
abbrev pub waiting : Inner → ℕ
waiting l = l.to_join + in_join l.dropping

abbrev left : Bool → ℕ
left true = 1
left false = 0

-- Whether some call has come as far as requesting shutdown.
abbrev Down : Inner → Type 0
Down l = l.world.queue.shutdown ≡ true

-- The handle is taken once, and only after shutdown was requested; the thread whose handle is gone
-- is waited for or has ended; and nothing goes on once the last clone is dropped.
record Sound (l : Inner) : Type 0 where
  pub once : left l.handle + waiting l ≤ 1
  pub gone_is_down : l.spawned ≡ true → l.handle ≡ false → Down l
  pub take_is_down : 0 < l.to_take → Down l
  pub drop_is_down : l.dropping ≢ in_use → Down l
  pub ended : l.spawned ≡ true → l.handle ≡ false → waiting l ≡ 0 → l.world.pc ≡ done
  pub none_started : l.spawned ≡ false → (l.handle ≡ false) × (waiting l ≡ 0)
  pub unused : l.dropping ≢ in_use → (l.clones ≡ 0) × (l.to_take ≡ 0) × (l.to_join ≡ 0)
  pub over_is_taken : l.dropping ≡ over → l.handle ≡ false

module _ (c : Config) (to_writer : Object → Serialized) where
  step-done : (w : World) (e : Event) → w.pc ≡ done → (step c to_writer w e).pc ≡ done
  unfolding step begin_log end_log close work work_at
  step-done w (logs r) h = h
  step-done w (tells k) h = h
  step-done w closes h = h
  step-done w (ticks n) h = h
  step-done w (works o) h = subst (λ p. (work_at c to_writer o w p).pc ≡ done) (sym h) h

  step-down :
      (w : World) (e : Event)
      → w.queue.shutdown ≡ true
      → (step c to_writer w e).queue.shutdown ≡ true
  step-down w e h = (step-Falls c w h to_writer e).0

  after-Sound : (l : Inner) (e : Event) → Sound l → Sound (after c to_writer e l)
  unfolding after
  after-Sound l e s = record {
    once = s.once;
    gone_is_down = λ b h. step-down l.world e (s.gone_is_down b h);
    take_is_down = λ h. step-down l.world e (s.take_is_down h);
    drop_is_down = λ h. step-down l.world e (s.drop_is_down h);
    ended = λ b h z. step-done l.world e (s.ended b h z);
    none_started = s.none_started;
    unused = s.unused;
    over_is_taken = s.over_is_taken;
  }

  Step-Sound : {l m : Inner} → Step c to_writer l m → Sound l → Sound m
  unfolding close_takes drop_takes after step close request_shutdown
  Step-Sound {l} (clones_it h) s = ground arith
  Step-Sound {l} (drops_clone h) s = ground arith
  Step-Sound {l} (logs_entry r h) s = after-Sound l (logs r) s
  Step-Sound {l} (tells_drop k) s = after-Sound l (tells k) s
  Step-Sound {l} (close_begins h) s = ground arith
  Step-Sound {l} (close_goes_on h) s = ground arith
  Step-Sound {l} (close_returns h d) s = ground arith
  Step-Sound {l} (drops_last x y z t) s = ground arith
  Step-Sound {l} (drop_goes_on h) s = ground arith
  Step-Sound {l} (drop_returns h d) s = ground arith
  Step-Sound {l} (time_passes n) s = after-Sound l (ticks n) s
  Step-Sound {l} (worker_works o h) s = after-Sound l (works o) s

  Reach-Sound : {n : ℕ} {b : Bool} {l : Inner} → Reach c to_writer n b l → Sound l
  unfolding built
  Reach-Sound begin = ground arith
  Reach-Sound (next r s) = Step-Sound s (Reach-Sound r)

  run-append :
      (w : World) (es : List Event) (e : Event)
      → run c to_writer w (es ++ e ∷ []) ≡ step c to_writer (run c to_writer w es) e
  unfolding run
  run-append w [] e = refl
  run-append w (d ∷ es) e = run-append (step c to_writer w d) es e

  -- What the callers, the clock and the worker have done, as events.
  abbrev event_of : {l m : Inner} → Step c to_writer l m → List Event
  event_of (logs_entry r h) = logs r ∷ []
  event_of (tells_drop k) = tells k ∷ []
  event_of (close_begins h) = closes ∷ []
  event_of (drops_last x y z t) = closes ∷ []
  event_of (time_passes n) = ticks n ∷ []
  event_of (worker_works o h) = works o ∷ []
  event_of _ = []

  abbrev pub events : {n : ℕ} {b : Bool} {l : Inner} → Reach c to_writer n b l → List Event
  events begin = []
  events (next r s) = events r ++ event_of s

  went_on :
      (v w : World) (es : List Event) (e : Event)
      → v ≡ run c to_writer w es
      → step c to_writer v e ≡ run c to_writer w (es ++ e ∷ [])
  went_on v w es e h = ap (λ x. step c to_writer x e) h ∙ sym (run-append w es e)

  stayed :
      (v w : World) (es : List Event) → v ≡ run c to_writer w es → v ≡ run c to_writer w (es ++ [])
  stayed v w es h = h ∙ ap (run c to_writer w) (sym (append-nil es))

  takes-world : (l : Inner) → ((close_takes l).world ≡ l.world) × ((drop_takes l).world ≡ l.world)
  unfolding close_takes drop_takes
  takes-world l = ground arith

  Step-run :
      {l m : Inner} (s : Step c to_writer l m) (w : World) (es : List Event)
      → l.world ≡ run c to_writer w es
      → m.world ≡ run c to_writer w (es ++ event_of s)
  unfolding after
  Step-run {l} (logs_entry r x) w es h = went_on l.world w es (logs r) h
  Step-run {l} (tells_drop k) w es h = went_on l.world w es (tells k) h
  Step-run {l} (close_begins x) w es h = went_on l.world w es closes h
  Step-run {l} (drops_last x y z t) w es h = went_on l.world w es closes h
  Step-run {l} (time_passes n) w es h = went_on l.world w es (ticks n) h
  Step-run {l} (worker_works o x) w es h = went_on l.world w es (works o) h
  Step-run {l} (close_goes_on x) w es h = stayed _ w es ((takes-world l).0 ∙ h)
  Step-run {l} (drop_goes_on x) w es h = stayed _ w es ((takes-world l).1 ∙ h)
  Step-run {l} (clones_it x) w es h = stayed l.world w es h
  Step-run {l} (drops_clone x) w es h = stayed l.world w es h
  Step-run {l} (close_returns x y) w es h = stayed l.world w es h
  Step-run {l} (drop_returns x y) w es h = stayed l.world w es h

  Reach-run :
      {n : ℕ} {b : Bool} {l : Inner} (r : Reach c to_writer n b l)
      → l.world ≡ run c to_writer (start (new n)) (events r)
  unfolding run built
  Reach-run begin = refl
  Reach-run {n} (next r s) = Step-run s (start (new n)) (events r) (Reach-run r)

  Step-spawned : {l m : Inner} → Step c to_writer l m → m.spawned ≡ l.spawned
  unfolding close_takes drop_takes after
  Step-spawned (clones_it h) = refl
  Step-spawned (close_goes_on h) = ground arith
  Step-spawned (drop_goes_on h) = ground arith
  Step-spawned _ = refl

  Reach-spawned : {n : ℕ} {b : Bool} {l : Inner} → Reach c to_writer n b l → l.spawned ≡ b
  unfolding built
  Reach-spawned begin = refl
  Reach-spawned (next r s) = Step-spawned s ∙ Reach-spawned r

waits-Down : (l : Inner) → Sound l → 0 < waiting l → (waiting l ≡ 1) × (l.spawned ≡ true) × Down l
waits-Down l s h = ground arith

over-done :
    (l : Inner)
    → Sound l
    → l.spawned ≡ true
    → l.dropping ≡ over
    → (l.world.pc ≡ done) × (l.world.queue.shutdown ≡ true)
over-done l s b h = ground arith

-- The worker's thread is waited for by one call at most, and the wait ends: such a call comes after
-- a request for shutdown, and the worker is done after four of its steps for each queued entry and
-- five more, whatever the callers do and however connects and writes come out.
pub Reach-waits :
    (c : Config) (to_writer : Object → Serialized) {n : ℕ} {b : Bool} {l : Inner}
    → Reach c to_writer n b l
    → (es : List Event) → 0 < waiting l
    → 4 * length l.world.queue.items + 5 ≤ worker_steps es
    → (waiting l ≡ 1)
      × (l.spawned ≡ true)
      × (l.world.queue.shutdown ≡ true)
      × ((run c to_writer l.world es).pc ≡ done)
Reach-waits c to_writer {l = l} r es h k =
    let (one, started, down) = waits-Down l (Reach-Sound c to_writer r) h in
    (one, started, down, run-done c to_writer l.world es down k)

-- When the drop of the last clone has returned, whatever went before, the client is at rest: if its
-- thread was started, the worker is done, and every entry that was ever logged was written, discarded
-- as unsendable, left in the queue, or counted as dropped. The counts agree modulo 2^64.
pub Reach-over :
    (c : Config) (to_writer : Object → Serialized) {n : ℕ} {l : Inner}
    → Reach c to_writer n true l
    → l.dropping ≡ over
    → let w = l.world in
      (w.pc ≡ done)
      × (w.queue.shutdown ≡ true)
      × ((length w.written + length w.discarded + length w.queue.items + w.queue.dropped) % u64_mod
          ≡ length w.logged % u64_mod)
Reach-over c to_writer {n} {l} r h =
    let (d, down) = over-done l (Reach-Sound c to_writer r) (Reach-spawned c to_writer r) h in
    let v =
      subst Inv (sym (Reach-run c to_writer r))
        (run-start-Inv c to_writer n (events c to_writer r)) in
    (d, down, omega (arith, v.counted, ap (λ p. length (held p)) d))
