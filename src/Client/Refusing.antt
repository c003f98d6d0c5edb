-- ===== src/Client/Refusing.antt =====
-- src/client.rs with src/queue.rs and src/error.rs: entries that are logged after a close.
use ecapplog_rust.Base.{
  ℕ, zero, suc, ◌+◌, ◌%◌, ◌<◌, ◌≡◌, refl, sym, ◌∙◌, List, [], ◌∷◌, ◌++◌, true, arith, length,
  append-nil, append_assoc, get_elem?-append_one, erase_idx-append_one, ap, subst,
}
use ecapplog_rust.Error.{Error, queue_full}
use ecapplog_rust.Record.{Record}
use ecapplog_rust.Queue.{u64_mod, push}
use ecapplog_rust.Proto.{Object}
use ecapplog_rust.Client.{Config, Serialized, report}
use ecapplog_rust.Client.Worker.{
  World, Event, logs, tells, report_full, begin_log, end_log, log, step, run,
}

-- The errors that count `n` more dropped entries.
abbrev pub queue_fulls : ℕ → ℕ → ℕ → List Error
queue_fulls capacity dropped zero = []
queue_fulls capacity dropped (suc n) =
    let total = (dropped + 1) % u64_mod in queue_full capacity total ∷ queue_fulls capacity total n

-- The calls of `log` with these entries, one after the other, while `k` other calls have a drop to
-- report and do not come to it.
abbrev pub calls : ℕ → List Record → List Event
calls k [] = []
calls k (r ∷ rs) = logs r ∷ tells k ∷ calls k rs

module _ (c : Config) (to_writer : Object → Serialized) (t : c.on_error ≡ true) where
  log-Refused :
      (w : World) (r : Record)
      → w.queue.shutdown ≡ true
      → let u = log c r w in
        (u.queue.items ≡ w.queue.items)
        × (u.queue.shutdown ≡ true)
        × (u.queue.capacity ≡ w.queue.capacity)
        × (u.queue.dropped ≡ (w.queue.dropped + 1) % u64_mod)
        × (u.telling ≡ w.telling)
        × (u.reported
            ≡ w.reported ++ queue_full w.queue.capacity ((w.queue.dropped + 1) % u64_mod) ∷ [])
  unfolding log begin_log end_log push report_full report
  log-Refused w r s =
      let total = (w.queue.dropped + 1) % u64_mod in
      rw (s, get_elem?-append_one w.telling total, erase_idx-append_one w.telling total, t)
        (refl, refl, refl, refl, refl, refl)

  -- What `n` refused entries leave of `w`.
  abbrev Refused : World → ℕ → World → Type 0
  Refused w n u =
      (u.queue.items ≡ w.queue.items)
      × (u.queue.dropped ≡ (w.queue.dropped + n) % u64_mod)
      × (u.reported ≡ w.reported ++ queue_fulls w.queue.capacity w.queue.dropped n)

  refused :
      (w : World) (k : ℕ) (rs : List Record)
      → length w.telling ≡ k
      → w.queue.shutdown ≡ true
      → w.queue.dropped < u64_mod
      → Refused w (length rs) (run c to_writer w (calls k rs))
  unfolding run step log
  refused w k [] n s h = (refl, omega arith, sym (append-nil w.reported))
  refused w k (r ∷ rs) n s h =
      let (i, s', q, d, n', e) = log-Refused w r s in
      let same : log c r w ≡ end_log c k (begin_log r w) =
        ap (λ j. end_log c j (begin_log r w)) n in
      let (is, ds, es) = refused (log c r w) k rs (ap length n' ∙ n) s' (omega (arith, d)) in
      let first = queue_full w.queue.capacity ((w.queue.dropped + 1) % u64_mod) in
      subst (λ v. Refused w (length (r ∷ rs)) (run c to_writer v (calls k rs))) same
        (
          is ∙ i,
          omega (arith, ds, d),
          es
              ∙ (λ x. e x ++ queue_fulls (q x) (d x) (length rs))
              ∙ append_assoc w.reported (first ∷ []) _,
        )

  -- An entry that is logged once shutdown was requested is lost, also where the queue has room: the
  -- queue stays as it is, and each such entry is counted as dropped and reported as `QueueFull`, with
  -- the running total, modulo 2^64. A callback is installed, and the calls are made one after the
  -- other, whatever other calls have a drop to report meanwhile.
  pub run-refused :
      (w : World) (rs : List Record)
      → w.queue.shutdown ≡ true
      → w.queue.dropped < u64_mod
      → let u = run c to_writer w (calls (length w.telling) rs) in
        (u.queue.items ≡ w.queue.items)
        × (u.queue.dropped ≡ (w.queue.dropped + length rs) % u64_mod)
        × (u.reported ≡ w.reported ++ queue_fulls w.queue.capacity w.queue.dropped (length rs))
  run-refused w rs s h = refused w (length w.telling) rs refl s h
