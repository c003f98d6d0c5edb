-- ===== src/Client/Kept.antt =====
-- src/client.rs with src/queue.rs: a client with room for all that is logged, while it is open.
use ecapplog_rust.Base.{
  ℕ, ◌+◌, ◌≤◌, ◌≡◌, refl, sym, ◌∙◌, List, [], ◌∷◌, ◌++◌, append-nil, Bool, true, false, arith,
  length, All,
}
use ecapplog_rust.Record.{Record}
use ecapplog_rust.Queue.{Queue, new, flush}
use ecapplog_rust.Proto.{Object}
use ecapplog_rust.Client.{Config, Serialized}
use ecapplog_rust.Client.Worker.{
  Pc, World, start, Event, logs, tells, closes, ticks, works, work, step, run,
}
use ecapplog_rust.Client.Invariant.{held, is_busy, run-start-Inv}
use ecapplog_rust.Client.Close.{Sendable}
use ecapplog_rust.Client.Kept.Steps.{Kept, moved, log-Kept, work_at-Kept}
mod Steps

-- The entries that the events log, and whether they leave the client open.
abbrev pub entries_of : List Event → List Record
entries_of [] = []
entries_of (logs r ∷ es) = r ∷ entries_of es
entries_of (e ∷ es) = entries_of es

abbrev pub is_open : List Event → Bool
is_open [] = true
is_open (closes ∷ es) = false
is_open (e ∷ es) = is_open es

module _ (c : Config) (to_writer : Object → Serialized) (goal : List Record) where
  abbrev Whole : World → Pc → List Record → Type 0
  Whole = Kept c to_writer goal

  step-Kept :
      (w : World) (e : Event) (es : List Event)
      → is_open (e ∷ es) ≡ true
      → All (Sendable c to_writer) (entries_of (e ∷ es))
      → Whole w w.pc (entries_of (e ∷ es))
      → let u = step c to_writer w e in Whole u u.pc (entries_of es)
  unfolding step work
  step-Kept w (logs r) es o (s, ss) k = log-Kept c to_writer goal w (entries_of es) r s k
  step-Kept w (tells i) es o s k =
      moved c to_writer goal w (entries_of es) w.pc w.pc _ refl refl refl refl k
  step-Kept w closes es o s k = cc
  step-Kept w (ticks n) es o s k =
      moved c to_writer goal w (entries_of es) w.pc w.pc _ refl refl refl refl k
  step-Kept w (works x) es o s k = work_at-Kept c to_writer goal w (entries_of es) x w.pc refl k

  run-Kept :
      (w : World) (es : List Event)
      → is_open es ≡ true
      → All (Sendable c to_writer) (entries_of es)
      → Whole w w.pc (entries_of es)
      → let u = run c to_writer w es in Whole u u.pc []
  unfolding run
  run-Kept w [] o s k = k
  run-Kept w (logs r ∷ es) o (s, ss) k =
      run-Kept (step c to_writer w (logs r)) es o ss (step-Kept w (logs r) es o (s, ss) k)
  run-Kept w (tells i ∷ es) o s k =
      run-Kept (step c to_writer w (tells i)) es o s (step-Kept w (tells i) es o s k)
  run-Kept w (closes ∷ es) o s k = cc
  run-Kept w (ticks n ∷ es) o s k =
      run-Kept (step c to_writer w (ticks n)) es o s (step-Kept w (ticks n) es o s k)
  run-Kept w (works x ∷ es) o s k =
      run-Kept (step c to_writer w (works x)) es o s (step-Kept w (works x) es o s k)

-- A client that is open and has room for all that its callers log, all of it sendable, drops nothing:
-- after any interleaving with the clock and the worker, and however connects and writes came out, what
-- is written, held and queued, in this order, is exactly what was logged, in its order.
pub run-start-kept :
    (c : Config) (to_writer : Object → Serialized) (n : ℕ) (es : List Event)
    → is_open es ≡ true
    → length (entries_of es) ≤ n
    → All (Sendable c to_writer) (entries_of es)
    → let w = run c to_writer (start (new n)) es in
      (w.written ++ (held w.pc ++ w.queue.items) ≡ entries_of es) × (w.queue.dropped ≡ 0)
unfolding start new
run-start-kept c to_writer n es o h s =
    let k = run-Kept c to_writer (entries_of es) (start (new n)) es o s (record {
      open_still = refl;
      none_dropped = refl;
      room = omega arith;
      kept = refl;
      sendable = tt;
      whole = refl;
    }) in
    (k.kept ∙ sym (append-nil _) ∙ k.whole, k.none_dropped)

settled : (p : Pc) → is_busy p ≡ false → held p ≡ []
settled p h = ground arith

flush-empty : (q : Queue) → flush q ≡ true → (q.items ≡ []) × (q.busy ≡ false)
unfolding flush
flush-empty q h = ground arith

-- When `flush` answers true to such a client, exactly what was logged has been written, in its order.
pub flush-written :
    (c : Config) (to_writer : Object → Serialized) (n : ℕ) (es : List Event)
    → is_open es ≡ true
    → length (entries_of es) ≤ n
    → All (Sendable c to_writer) (entries_of es)
    → flush (run c to_writer (start (new n)) es).queue ≡ true
    → (run c to_writer (start (new n)) es).written ≡ entries_of es
flush-written c to_writer n es o h s f =
    let w = run c to_writer (start (new n)) es in
    let (i, b) = flush-empty w.queue f in
    let e = settled w.pc (sym (run-start-Inv c to_writer n es).busy_is ∙ b) in
    sym (append-nil w.written)
    ∙ (λ x. w.written ++ (sym e x ++ sym i x))
    ∙ (run-start-kept c to_writer n es o h s).0
