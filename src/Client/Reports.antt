-- ===== src/Client/Reports.antt =====
-- src/client.rs with src/error.rs: what the callback is told.
use ecapplog_rust.Base.{
  ℕ, zero, suc, ap, get_elem?, erase_idx, ◌+◌, ◌%◌, ◌^◌, ◌≡◌, refl, sym, subst, List, [], ◌∷◌, true,
  arith, length, length-append, Option, some, none,
}
use ecapplog_rust.Base.Text.{Text}
use ecapplog_rust.Error.{Error, queue_full, write}
use ecapplog_rust.Record.{Record}
use ecapplog_rust.Queue.{
  u64_mod, new, push, push_front, pop, pop_from, finish, request_shutdown, sleep_or_shutdown,
}
use ecapplog_rust.Proto.{Object}
use ecapplog_rust.Client.{
  Config, report, Attempt, stream, refused, connect, Serialized, WriteOutcome, complete, broken,
  WriteResult, ok, discard, connection, write_record,
}
use ecapplog_rust.Client.Worker.{
  Pc, reconnect, connecting, greeting, checking, popping, finishing, pausing, done, writing,
  requeueing, settling, World, start, Outcome, Event, logs, tells, closes, ticks, works,
  report_full, begin_log, end_log, close, at_greeting, after_connect, after_pop, after_write,
  at_requeueing, at_settling, work_at, work, step, run,
}
use ecapplog_rust.Client.Reports.Kinds.{
  is_full, is_unsendable, count, count-append_one, AttemptIsSilent, ResultTells, connect-IsSilent,
  write_record-tells,
}
pub mod Kinds

-- A drop at a requeue that is still to be reported.
abbrev pub to_report : Pc → ℕ
to_report (settling (some total)) = 1
to_report _ = 0

abbrev one_if : Option ℕ → ℕ
one_if none = 0
one_if (some total) = 1

length-erase_idx :
    (xs : List ℕ) (k : ℕ) → length xs ≡ length (erase_idx xs k) + one_if (get_elem? xs k)
length-erase_idx [] k = refl
length-erase_idx (x ∷ xs) zero = omega arith
length-erase_idx (x ∷ xs) (suc k) = omega (arith, length-erase_idx xs k)

record Told (w : World) (p : Pc) : Type 0 where
  pub drops :
      (count is_full w.reported + to_report p + length w.telling) % u64_mod
      ≡ w.queue.dropped % u64_mod
  pub discards : count is_unsendable w.reported ≡ length w.discarded

module _ (c : Config) (told : c.on_error ≡ true) where
  count-report :
      (f : Error → ℕ) (es : List Error) (e : Error) → count f (report c es e) ≡ count f es + f e
  unfolding report
  count-report f es e = rw told (count-append_one f es e)

  module _ (w : World) where
    begin_log-Told : (r : Record) → Told w w.pc → Told (begin_log r w) w.pc
    unfolding begin_log push
    begin_log-Told r h =
        ground (arith, length-append w.telling (((w.queue.dropped + 1) % u64_mod) ∷ []))

    reports-Told :
        (k : ℕ) (total : Option ℕ)
        → get_elem? w.telling k ≡ total
        → Told w w.pc
        → let es = report_full c w.reported w.queue.capacity total in
          ((count is_full es + to_report w.pc + length (erase_idx w.telling k)) % u64_mod
            ≡ w.queue.dropped % u64_mod)
          × (count is_unsendable es ≡ length w.discarded)
    unfolding report_full
    reports-Told k none e h =
        omega (arith, length-erase_idx w.telling k, ap one_if e, h.drops, h.discards)
    reports-Told k (some total) e h = omega (
      arith,
      length-erase_idx w.telling k,
      ap one_if e,
      h.drops,
      h.discards,
      count-report is_full w.reported (queue_full w.queue.capacity total),
      count-report is_unsendable w.reported (queue_full w.queue.capacity total),
    )

    end_log-Told : (k : ℕ) → Told w w.pc → Told (end_log c k w) w.pc
    unfolding end_log
    end_log-Told k h =
        let (d, u) = reports-Told k (get_elem? w.telling k) refl h in
        record { drops = d; discards = u }

    after_connect-Told :
        (a : Attempt)
        → AttemptIsSilent a
        → Told w connecting
        → Told (after_connect c w a) (after_connect c w a).pc
    unfolding after_connect
    after_connect-Told (stream a) s h = record { drops = h.drops; discards = h.discards }
    after_connect-Told (refused e) s h =
        omega (arith, count-report is_full w.reported e, count-report is_unsendable w.reported e)

    at_greeting-Told :
        (o : WriteOutcome) → Told w greeting → Told (at_greeting c o w) (at_greeting c o w).pc
    unfolding at_greeting
    at_greeting-Told complete h = record { drops = h.drops; discards = h.discards }
    at_greeting-Told (broken n e) h = omega (
      arith,
      count-report is_full w.reported (write e),
      count-report is_unsendable w.reported (write e),
    )

    after_write-Told :
        (r : Record) (x : WriteResult × Text)
        → ResultTells x.0
        → Told w (writing r)
        → Told (after_write c w r x) (after_write c w r x).pc
    unfolding after_write
    after_write-Told r (ok, bytes) s h = record { drops = h.drops; discards = h.discards }
    after_write-Told r (discard e, bytes) s h = omega (
      arith,
      count-report is_full w.reported e,
      count-report is_unsendable w.reported e,
      length-append w.discarded (r ∷ []),
    )
    after_write-Told r (connection e, bytes) s h =
        omega (arith, count-report is_full w.reported e, count-report is_unsendable w.reported e)

    after_pop-Told :
        (xs : List Record)
        → Told w popping
        → let u = after_pop w (pop_from w.queue xs) in Told u u.pc
    unfolding after_pop pop_from
    after_pop-Told [] h = ground arith
    after_pop-Told (x ∷ xs) h = record { drops = h.drops; discards = h.discards }

    at_requeueing-Told :
        (r : Record) → Told w (requeueing r) → Told (at_requeueing r w) (at_requeueing r w).pc
    unfolding at_requeueing push_front
    at_requeueing-Told r h = ground arith

    at_settling-Told :
        (total : Option ℕ)
        → Told w (settling total)
        → Told (at_settling c total w) (at_settling c total w).pc
    unfolding at_settling report_full finish
    at_settling-Told none h = ground arith
    at_settling-Told (some total) h = omega (
      arith,
      count-report is_full w.reported (queue_full w.queue.capacity total),
      count-report is_unsendable w.reported (queue_full w.queue.capacity total),
    )

    work_at-Told :
        (to_writer : Object → Serialized) (o : Outcome) (p : Pc)
        → w.pc ≡ p
        → Told w p
        → let u = work_at c to_writer o w p in Told u u.pc
    unfolding work_at finish pop sleep_or_shutdown
    work_at-Told to_writer o reconnect e h = ground arith
    work_at-Told to_writer o connecting e h =
        after_connect-Told (connect c o.network w.flush_deadline w.now)
          (connect-IsSilent c o.network w.flush_deadline w.now) h
    work_at-Told to_writer o greeting e h = at_greeting-Told o.write h
    work_at-Told to_writer o checking e h = ground arith
    work_at-Told to_writer o popping e h = after_pop-Told w.queue.items h
    work_at-Told to_writer o (writing r) e h =
        after_write-Told r (write_record to_writer o.write r)
          (write_record-tells to_writer o.write r) h
    work_at-Told to_writer o finishing e h = record { drops = h.drops; discards = h.discards }
    work_at-Told to_writer o (requeueing r) e h = at_requeueing-Told r h
    work_at-Told to_writer o (settling total) e h = at_settling-Told total h
    work_at-Told to_writer o pausing e h = ground arith
    work_at-Told to_writer o done e h = subst (Told w) (sym e) h

  run-Told :
      (to_writer : Object → Serialized) (es : List Event) (w : World)
      → Told w w.pc
      → let u = run c to_writer w es in Told u u.pc
  unfolding run step work close request_shutdown
  run-Told to_writer [] w h = h
  run-Told to_writer (logs r ∷ es) w h =
      run-Told to_writer es (begin_log r w) (begin_log-Told w r h)
  run-Told to_writer (tells k ∷ es) w h = run-Told to_writer es (end_log c k w) (end_log-Told w k h)
  run-Told to_writer (closes ∷ es) w h =
      run-Told to_writer es (close w) (record { drops = h.drops; discards = h.discards })
  run-Told to_writer (ticks n ∷ es) w h =
      run-Told to_writer es (record w { now = w.now + n })
        (record { drops = h.drops; discards = h.discards })
  run-Told to_writer (works o ∷ es) w h =
      run-Told to_writer es (work c to_writer o w) (work_at-Told w to_writer o w.pc refl h)

-- With a callback installed, after any interleaving, it was told of as many dropped entries as the
-- queue counted, but for those whose report is still to come: one drop at a requeue that the worker is
-- about to report, and one for each call of `log` that has dropped an entry and released the lock, and
-- not reported it yet; the counts agree modulo 2^64. It was told of as many unsendable entries as were
-- discarded.
pub run-start-told :
    (c : Config) (to_writer : Object → Serialized) (n : ℕ) (es : List Event)
    → c.on_error ≡ true
    → let w = run c to_writer (start (new n)) es in
      ((count is_full w.reported + to_report w.pc + length w.telling) % u64_mod
        ≡ w.queue.dropped % u64_mod)
      × (count is_unsendable w.reported ≡ length w.discarded)
unfolding start new
run-start-told c to_writer n es told =
    let h =
      run-Told c told to_writer es (start (new n)) (record { drops = refl; discards = refl }) in
    (h.drops, h.discards)
