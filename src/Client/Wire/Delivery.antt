-- ===== src/Client/Wire/Delivery.antt =====
-- src/client.rs: the bytes of all connections, after any interleaving, and what the server decodes.
use ecapplog_rust.Base.{ℕ, ◌≡◌, refl, sym, subst, List, [], ◌∷◌, map, append-nil, ◌+◌}
use ecapplog_rust.Record.{Record}
use ecapplog_rust.Queue.{new, pop, pop_from, finish, push_front}
use ecapplog_rust.Proto.{Object, fields, from_record, banner_payload}
use ecapplog_rust.Server.Stream.{Short}
use ecapplog_rust.Client.{Config, connect, Serialized, write_record}
use ecapplog_rust.Client.Worker.{
  Pc, reconnect, connecting, greeting, checking, popping, finishing, pausing, done, writing,
  requeueing, settling, World, start, begin_log, end_log, close, Outcome, Event, logs, tells,
  closes, ticks, works, work_at, at_reconnect, at_checking, at_pausing, after_pop, work, step, run,
}
use ecapplog_rust.Client.Calm.{
  at_reconnect-Calm, at_checking-Calm, at_pausing-Calm, pop_nothing-Calm,
}
use ecapplog_rust.Client.Wire.Carried.{Carried, unheard, next_frame-nil, received, Carried-received}
use ecapplog_rust.Client.Wire.Steps.{
  payload_of, WireAt, Open, Shut, Shut-resting, Open-serving, Open-Shut, Calm-Shut, Calm-Open,
  after_connect-WireAt, at_greeting-WireAt, after_write-WireAt,
}

module _ (c : Config) (to_writer : Object → Serialized) where
  abbrev Wired : World → Pc → Type 0
  Wired = WireAt c to_writer

  module _ (b : Short (banner_payload c.app_name)) (w : World) where
    after_pop-WireAt :
        (xs : List Record)
        → Open c to_writer w
        → let u = after_pop w (pop_from w.queue xs) in Wired u u.pc
    unfolding after_pop pop_from
    after_pop-WireAt [] v =
        let u = after_pop w (pop_from w.queue []) in
        let (k, h) = pop_nothing-Calm c w in
        Open-serving c to_writer u u.pc h (Calm-Open c to_writer {w = w} {u = u} k v)
    after_pop-WireAt (x ∷ xs) v = v

    work_at-WireAt :
        (o : Outcome) (p : Pc)
        → w.pc ≡ p
        → Wired w p
        → let u = work_at c to_writer o w p in Wired u u.pc
    unfolding work_at finish pop push_front write_record
    work_at-WireAt o reconnect e v =
        let u = at_reconnect c o w in
        let (k, h) = at_reconnect-Calm c w o in
        Shut-resting c to_writer u u.pc h (Calm-Shut c to_writer {w = w} {u = u} k v)
    work_at-WireAt o connecting e v =
        after_connect-WireAt c to_writer b w (connect c o.network w.flush_deadline w.now) v
    work_at-WireAt o greeting e v = at_greeting-WireAt c to_writer b w o.write v
    work_at-WireAt o checking e v =
        let u = at_checking c o w in
        let (k, h) = at_checking-Calm c w o in
        Open-serving c to_writer u u.pc h (Calm-Open c to_writer {w = w} {u = u} k v)
    work_at-WireAt o popping e v = after_pop-WireAt w.queue.items v
    work_at-WireAt o (writing r) e v =
        after_write-WireAt c to_writer b w o.write r (to_writer (fields (from_record r))) refl v
    work_at-WireAt o finishing e v = v
    work_at-WireAt o (requeueing r) e v = v
    work_at-WireAt o (settling total) e v = v
    work_at-WireAt o pausing e v =
        let u = at_pausing w in
        let (k, h) = at_pausing-Calm c w in
        Shut-resting c to_writer u u.pc h (Calm-Shut c to_writer {w = w} {u = u} k v)
    work_at-WireAt o done e v = subst (Wired w) (sym e) v

  -- Neither the callers nor the clock touch a connection.
  same_wire :
      (w u : World) (p : Pc) → u.streams ≡ w.streams → u.written ≡ w.written → Wired w p → Wired u p
  same_wire w u greeting es ew v = rw (es, ew) v
  same_wire w u checking es ew v = rw (es, ew) v
  same_wire w u popping es ew v = rw (es, ew) v
  same_wire w u (writing r) es ew v = rw (es, ew) v
  same_wire w u finishing es ew v = rw (es, ew) v
  same_wire w u _ es ew v = rw (es, ew) v

  -- Whatever the worker is at, all connections carried what was written.
  WireAt-Shut : (w : World) (p : Pc) → Wired w p → Shut c to_writer w
  WireAt-Shut w greeting (ss, e, k) =
      subst (λ l. Carried c.app_name l (map (payload_of to_writer) w.written)) (sym e)
        (_, [], sym (append-nil _), unheard next_frame-nil refl, k)
  WireAt-Shut w checking v = Open-Shut c to_writer w v
  WireAt-Shut w popping v = Open-Shut c to_writer w v
  WireAt-Shut w (writing r) v = Open-Shut c to_writer w v
  WireAt-Shut w finishing v = Open-Shut c to_writer w v
  WireAt-Shut w _ v = v

  module _ (b : Short (banner_payload c.app_name)) where
    step-WireAt :
        (w : World) (e : Event) → Wired w w.pc → let u = step c to_writer w e in Wired u u.pc
    unfolding step work
    step-WireAt w (logs r) v = same_wire w (begin_log r w) w.pc refl refl v
    step-WireAt w (tells k) v = same_wire w (end_log c k w) w.pc refl refl v
    step-WireAt w closes v = same_wire w (close w) w.pc refl refl v
    step-WireAt w (ticks n) v = same_wire w (record w { now = w.now + n }) w.pc refl refl v
    step-WireAt w (works o) v = work_at-WireAt b w o w.pc refl v

    run-WireAt :
        (w : World) (es : List Event) → Wired w w.pc → let u = run c to_writer w es in Wired u u.pc
    unfolding run
    run-WireAt w [] v = v
    run-WireAt w (e ∷ es) v = run-WireAt (step c to_writer w e) es (step-WireAt w e v)

start-WireAt :
    (c : Config) (to_writer : Object → Serialized) (n : ℕ)
    → WireAt c to_writer (start (new n)) (start (new n)).pc
unfolding start
start-WireAt c to_writer n = refl

-- After any interleaving of the callers, the clock and the worker, and however connects and writes
-- came out, the bytes of every connection are a banner and whole log frames with at most the
-- beginning of one more frame, or the beginning of a banner; and the frames of all connections, the
-- oldest first, carry exactly the written entries in their order. The banner is within the limit.
pub run-start-Carried :
    (c : Config) (to_writer : Object → Serialized) (n : ℕ) (es : List Event)
    → Short (banner_payload c.app_name)
    → let w = run c to_writer (start (new n)) es in
      Carried c.app_name w.streams (map (payload_of to_writer) w.written)
run-start-Carried c to_writer n es b =
    let w = run c to_writer (start (new n)) es in
    WireAt-Shut c to_writer w w.pc
      (run-WireAt c to_writer b (start (new n)) es (start-WireAt c to_writer n))

-- After any interleaving of the callers, the clock and the worker, and however connects and writes
-- came out, the mock server, given the bytes of each connection, decodes the JSON of exactly the
-- written entries, in their order. The banner is within the limit.
pub run-start-received :
    (c : Config) (to_writer : Object → Serialized) (n : ℕ) (es : List Event)
    → Short (banner_payload c.app_name)
    → let w = run c to_writer (start (new n)) es in
      received w.streams ≡ map (payload_of to_writer) w.written
run-start-received c to_writer n es b =
    Carried-received c.app_name b _ _ (run-start-Carried c to_writer n es b)
