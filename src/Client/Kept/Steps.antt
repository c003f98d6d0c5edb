-- ===== src/Client/Kept/Steps.antt =====
-- src/client.rs with src/queue.rs: the steps of a client that is open and has room for all entries.
use ecapplog_rust.Base.{
  ◌+◌, ◌≤◌, ◌≡◌, refl, sym, subst, ◌∙◌, ap, List, [], ◌∷◌, ◌++◌, append_assoc, false, arith, length,
  length-append, All, if◌then◌else◌,
}
use ecapplog_rust.Record.{Record}
use ecapplog_rust.Queue.{
  Queue, push, push_front, pop, pop_from, finish, shut_down, idle, sleep_or_shutdown,
}
use ecapplog_rust.Proto.{Object}
use ecapplog_rust.Client.{
  Config, connect, stream, refused, Attempt, Serialized, WriteOutcome, complete, broken, write_all,
  write_json, write_record,
}
use ecapplog_rust.Client.Worker.{
  Pc, reconnect, connecting, greeting, checking, popping, finishing, pausing, done, writing,
  requeueing, settling, World, Outcome, begin_log, at_reconnect, at_checking, at_greeting,
  at_requeueing, at_pausing, at_settling, after_connect, after_pop, after_write, work_at,
}
use ecapplog_rust.Client.Invariant.{held}
use ecapplog_rust.Client.Close.{short_enough, Sendable}

-- A queue with room takes an entry at its end, or at its head.
push-room :
    (q : Queue) (r : Record)
    → q.shutdown ≡ false
    → length q.items + 1 ≤ q.capacity
    → let u = (push q r).0 in
      (u.shutdown ≡ false)
      × (u.dropped ≡ q.dropped)
      × (u.capacity ≡ q.capacity)
      × (u.items ≡ q.items ++ r ∷ [])
unfolding push
push-room q r s h = ground arith

push_front-room :
    (q : Queue) (r : Record)
    → q.shutdown ≡ false
    → length q.items + 1 ≤ q.capacity
    → let u = (push_front q r).0 in
      (u.shutdown ≡ false)
      × (u.dropped ≡ q.dropped)
      × (u.capacity ≡ q.capacity)
      × (u.items ≡ r ∷ q.items)
unfolding push_front
push_front-room q r s h = ground arith

All-append {ℓ κ} :
    {A : Type ℓ} (P : A → Type κ) (xs ys : List A) → All P xs → All P ys → All P (xs ++ ys)
All-append P [] ys h k = k
All-append P (x ∷ xs) ys (h, hs) k = (h, All-append P xs ys hs k)

-- The loops of a client that is open.
at_reconnect-open :
    (c : Config) (o : Outcome) (w : World)
    → w.queue.shutdown ≡ false
    → at_reconnect c o w ≡ record w { pc = connecting }
unfolding at_reconnect
at_reconnect-open c o w h = rw h refl

at_checking-open :
    (c : Config) (o : Outcome) (w : World)
    → w.queue.shutdown ≡ false
    → at_checking c o w ≡ record w { pc = popping }
unfolding at_checking
at_checking-open c o w h = rw h refl

at_pausing-open :
    (w : World) → w.queue.shutdown ≡ false → at_pausing w ≡ record w { pc = reconnect }
unfolding at_pausing sleep_or_shutdown
at_pausing-open w h = rw h refl

module _ (c : Config) (to_writer : Object → Serialized) (goal : List Record) where
  abbrev pub Sends : List Record → Type 0
  Sends = All (Sendable c to_writer)

  -- Of the entries of `goal` only `more` are to come, with room for them, and all others are written,
  -- held or queued.
  pub record Kept (w : World) (p : Pc) (more : List Record) : Type 0 where
    pub open_still : w.queue.shutdown ≡ false
    pub none_dropped : w.queue.dropped ≡ 0
    pub room : length w.logged + length more ≤ w.queue.capacity
    pub kept : w.written ++ (held p ++ w.queue.items) ≡ w.logged
    pub sendable : Sends (held p ++ w.queue.items)
    pub whole : w.logged ++ more ≡ goal

  module _ (w : World) (more : List Record) where
    -- Another world with the same entries, and the worker at another place.
    pub moved :
        (p q : Pc) (u : World)
        → u.queue ≡ w.queue
        → u.written ≡ w.written
        → u.logged ≡ w.logged
        → held q ≡ held p
        → Kept w p more
        → Kept u q more
    moved p q u eq ew el eh k = record {
      open_still = ap (λ x. x.shutdown) eq ∙ k.open_still;
      none_dropped = ap (λ x. x.dropped) eq ∙ k.none_dropped;
      room = omega (arith, ap (λ x. x.capacity) eq, ap length el, k.room);
      kept = (λ i. ew i ++ (eh i ++ (eq i).items)) ∙ k.kept ∙ sym el;
      sendable = subst Sends (λ i. sym eh i ++ (sym eq i).items) k.sendable;
      whole = ap (λ l. l ++ more) el ∙ k.whole;
    }

    entries-count :
        (p : Pc) (n : List Record)
        → Kept w p n
        → length w.written + (length (held p) + length w.queue.items) ≡ length w.logged
    entries-count p n k = omega (
      arith,
      ap length k.kept,
      length-append w.written (held p ++ w.queue.items),
      length-append (held p) w.queue.items,
    )

    pub log-Kept :
        (r : Record)
        → Sendable c to_writer r
        → Kept w w.pc (r ∷ more)
        → let u = begin_log r w in Kept u u.pc more
    unfolding begin_log
    log-Kept r s k =
        let h = held w.pc in
        let items = w.queue.items in
        let n = entries-count w.pc (r ∷ more) k in
        let (o, d, m, i) = push-room w.queue r k.open_still (omega (arith, n, k.room)) in
        record {
          open_still = o;
          none_dropped = d ∙ k.none_dropped;
          room = omega (arith, m, k.room, length-append w.logged (r ∷ []));
          kept =
              ap (λ l. w.written ++ (h ++ l)) i
              ∙ ap (◌++◌ w.written) (sym (append_assoc h items (r ∷ [])))
              ∙ sym (append_assoc w.written (h ++ items) (r ∷ []))
              ∙ ap (λ l. l ++ r ∷ []) k.kept;
          sendable =
              subst Sends (append_assoc h items (r ∷ []) ∙ ap (◌++◌ h) (sym i))
                (All-append (Sendable c to_writer) (h ++ items) (r ∷ []) k.sendable (s, tt));
          whole = append_assoc w.logged (r ∷ []) more ∙ k.whole;
        }

    after_connect-Kept :
        (a : Attempt) → Kept w connecting more → let u = after_connect c w a in Kept u u.pc more
    unfolding after_connect
    after_connect-Kept (stream a) k = moved connecting greeting _ refl refl refl refl k
    after_connect-Kept (refused e) k = moved connecting pausing _ refl refl refl refl k

    at_greeting-Kept :
        (o : WriteOutcome) → Kept w greeting more → let u = at_greeting c o w in Kept u u.pc more
    unfolding at_greeting
    at_greeting-Kept complete k = moved greeting checking _ refl refl refl refl k
    at_greeting-Kept (broken n e) k = moved greeting pausing _ refl refl refl refl k

    after_write-Kept :
        (r : Record) (o : WriteOutcome)
        → Kept w (writing r) more
        → let u = after_write c w r (write_record to_writer o r) in Kept u u.pc more
    unfolding write_record write_json write_all after_write
    after_write-Kept r complete k =
        let ((b, j, short), rest) = k.sendable in
        rw (j, short_enough b short)
          (record {
            open_still = k.open_still;
            none_dropped = k.none_dropped;
            room = k.room;
            kept = append_assoc w.written (r ∷ []) w.queue.items ∙ k.kept;
            sendable = rest;
            whole = k.whole;
          })
    after_write-Kept r (broken n e) k =
        let ((b, j, short), rest) = k.sendable in
        rw (j, short_enough b short) (moved (writing r) (requeueing r) _ refl refl refl refl k)

    after_pop-Kept :
        (xs : List Record)
        → w.queue.items ≡ xs
        → Kept w popping more
        → let u = after_pop w (pop_from w.queue xs) in Kept u u.pc more
    unfolding after_pop pop_from
    after_pop-Kept [] e k =
        subst
          (λ b. let u = after_pop w (w.queue, if b then shut_down else idle) in Kept u u.pc more)
          (sym k.open_still) (moved popping checking _ refl refl refl refl k)
    after_pop-Kept (x ∷ xs) e k = record {
      open_still = k.open_still;
      none_dropped = k.none_dropped;
      room = k.room;
      kept = subst (λ l. w.written ++ l ≡ w.logged) e k.kept;
      sendable = subst Sends e k.sendable;
      whole = k.whole;
    }

    at_requeueing-Kept :
        (r : Record) → Kept w (requeueing r) more → let u = at_requeueing r w in Kept u u.pc more
    unfolding at_requeueing
    at_requeueing-Kept r k =
        let n = entries-count (requeueing r) more k in
        let (s, d, m, i) = push_front-room w.queue r k.open_still (omega (arith, n, k.room)) in
        record {
          open_still = s;
          none_dropped = d ∙ k.none_dropped;
          room = omega (arith, m, k.room);
          kept = ap (λ l. w.written ++ l) i ∙ k.kept;
          sendable = subst Sends (sym i) k.sendable;
          whole = k.whole;
        }

    pub work_at-Kept :
        (o : Outcome) (p : Pc)
        → w.pc ≡ p
        → Kept w p more
        → let u = work_at c to_writer o w p in Kept u u.pc more
    unfolding work_at pop finish at_settling
    work_at-Kept o reconnect e k =
        rw (at_reconnect-open c o w k.open_still)
          (moved reconnect connecting _ refl refl refl refl k)
    work_at-Kept o connecting e k =
        after_connect-Kept (connect c o.network w.flush_deadline w.now) k
    work_at-Kept o greeting e k = at_greeting-Kept o.write k
    work_at-Kept o checking e k =
        rw (at_checking-open c o w k.open_still) (moved checking popping _ refl refl refl refl k)
    work_at-Kept o popping e k = after_pop-Kept w.queue.items refl k
    work_at-Kept o (writing r) e k = after_write-Kept r o.write k
    work_at-Kept o finishing e k = record {
      open_still = k.open_still;
      none_dropped = k.none_dropped;
      room = k.room;
      kept = k.kept;
      sendable = k.sendable;
      whole = k.whole;
    }
    work_at-Kept o (requeueing r) e k = at_requeueing-Kept r k
    work_at-Kept o (settling total) e k = record {
      open_still = k.open_still;
      none_dropped = k.none_dropped;
      room = k.room;
      kept = k.kept;
      sendable = k.sendable;
      whole = k.whole;
    }
    work_at-Kept o pausing e k =
        subst (λ u. Kept u u.pc more) (sym (at_pausing-open w k.open_still))
          (moved pausing reconnect _ refl refl refl refl k)
    work_at-Kept o done e k = subst (λ p. Kept w p more) (sym e) k
