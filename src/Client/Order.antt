-- ===== src/Client/Order.antt =====
-- src/client.rs with src/queue.rs: the order of the entries.
use ecapplog_rust.Base.{
  ℕ, ◌≡◌, refl, ap, ◌∙◌, sym, subst, List, [], ◌∷◌, ◌++◌, append_assoc, true, Bool-cases, inl, inr,
  leb, length,
}
use ecapplog_rust.Record.{Record}
use ecapplog_rust.Queue.{
  Queue, rest_of, new, push, push_front, pop, pop_from, finish, request_shutdown,
}
use ecapplog_rust.Proto.{Object}
use ecapplog_rust.Client.{
  Config, connect, stream, refused, Attempt, Serialized, WriteOutcome, complete, broken,
  WriteResult, ok, discard, connection, write_record,
}
use ecapplog_rust.Base.Text.{Text}
use ecapplog_rust.Client.Worker.{
  Pc, reconnect, connecting, greeting, checking, popping, finishing, pausing, done, writing,
  requeueing, settling, World, start, begin_log, Outcome, Event, logs, tells, closes, ticks, works,
  work_at, at_requeueing, after_connect, at_greeting, after_pop, after_write, work, step, run,
}
use ecapplog_rust.Client.Invariant.{held}
use ecapplog_rust.Client.Calm.{
  Calm, is_resting, is_serving, at_reconnect-Calm, at_checking-Calm, at_pausing-Calm,
  pop_nothing-Calm,
}

-- The first list is the second with some entries left out.
pub data Within {ℓ} {A : Type ℓ} : List A → List A → Type ℓ where
  nil : Within [] []
  keep : {x : A} {xs ys : List A} → Within xs ys → Within (x ∷ xs) (x ∷ ys)
  skip : {x : A} {xs ys : List A} → Within xs ys → Within xs (x ∷ ys)

module _ {ℓ} {A : Type ℓ} where
  pub Within-refl : (xs : List A) → Within xs xs
  Within-refl [] = nil
  Within-refl (x ∷ xs) = keep (Within-refl xs)

  pub Within-append : {xs ys : List A} (zs : List A) → Within xs ys → Within (xs ++ zs) (ys ++ zs)
  Within-append zs nil = Within-refl zs
  Within-append zs (keep h) = keep (Within-append zs h)
  Within-append zs (skip h) = skip (Within-append zs h)

  pub Within-prepend : {xs ys : List A} (zs : List A) → Within xs ys → Within (zs ++ xs) (zs ++ ys)
  Within-prepend [] h = h
  Within-prepend (z ∷ zs) h = keep (Within-prepend zs h)

  pub Within-trans : {ys zs : List A} → Within ys zs → {xs : List A} → Within xs ys → Within xs zs
  Within-trans nil h = h
  Within-trans (keep k) (keep h) = keep (Within-trans k h)
  Within-trans (keep k) (skip h) = skip (Within-trans k h)
  Within-trans (skip k) h = skip (Within-trans k h)

  Within-one_more : (xs : List A) (x : A) → Within xs (xs ++ x ∷ [])
  Within-one_more [] x = skip nil
  Within-one_more (y ∷ xs) x = keep (Within-one_more xs x)

-- What is written, held and queued, oldest first.
abbrev pub in_line : World → Pc → List Record
in_line w p = w.written ++ (held p ++ w.queue.items)

abbrev pub InOrder : World → Pc → Type 0
InOrder w p = Within (in_line w p) w.logged

rest_of-Within : (xs : List Record) → Within (rest_of xs) xs
rest_of-Within [] = nil
rest_of-Within (x ∷ xs) = skip (Within-refl xs)

push-Within : (q : Queue) (r : Record) → Within (push q r).0.items (q.items ++ r ∷ [])
unfolding push
push-Within q r = elim (Bool-cases q.shutdown) [
  | inl down ↦ simp down (Within-one_more q.items r)
  | inr up ↦ simp up (elim (Bool-cases (leb q.capacity (length q.items))) [
    | inl full ↦ simp full (Within-append (r ∷ []) (rest_of-Within q.items))
    | inr room ↦ simp room (Within-refl (q.items ++ r ∷ []))
  ])
]

push_front-Within : (q : Queue) (r : Record) → Within (push_front q r).0.items (r ∷ q.items)
unfolding push_front
push_front-Within q r = elim (Bool-cases (leb q.capacity (length q.items))) [
  | inl full ↦ rw full (skip (Within-refl q.items))
  | inr room ↦ rw room (Within-refl (r ∷ q.items))
]

log-InOrder : (w : World) (r : Record) → InOrder w w.pc → InOrder (begin_log r w) w.pc
unfolding begin_log
log-InOrder w r h =
    Within-trans
      (subst (λ l. Within l (w.logged ++ r ∷ []))
        (append_assoc w.written (held w.pc ++ w.queue.items) (r ∷ [])
          ∙ ap (◌++◌ w.written) (append_assoc (held w.pc) w.queue.items (r ∷ [])))
        (Within-append (r ∷ []) h))
      (Within-prepend w.written (Within-prepend (held w.pc) (push-Within w.queue r)))

held-resting : (p : Pc) → is_resting p ≡ true → held p ≡ []
held-resting (writing r) h = cc
held-resting (requeueing r) h = cc
held-resting _ h = refl

held-serving : (p : Pc) → is_serving p ≡ true → held p ≡ []
held-serving (writing r) h = cc
held-serving (requeueing r) h = cc
held-serving _ h = refl

Calm-InOrder :
    {w u : World} (p : Pc) → held p ≡ [] → held u.pc ≡ [] → Calm w u → InOrder w p → InOrder u u.pc
Calm-InOrder {w} {u} p hp hu k v = rw (k.written_kept, k.logged_kept, k.queue_kept, hu) (rw hp at v)

module _ (c : Config) (w : World) where
  after_connect-InOrder :
      (a : Attempt) → InOrder w connecting → InOrder (after_connect c w a) (after_connect c w a).pc
  unfolding after_connect
  after_connect-InOrder (stream a) v = v
  after_connect-InOrder (refused e) v = v

  at_greeting-InOrder :
      (o : WriteOutcome) → InOrder w greeting → InOrder (at_greeting c o w) (at_greeting c o w).pc
  unfolding at_greeting
  at_greeting-InOrder complete v = v
  at_greeting-InOrder (broken k e) v = v

  after_write-InOrder :
      (r : Record) (x : WriteResult × Text)
      → InOrder w (writing r)
      → InOrder (after_write c w r x) (after_write c w r x).pc
  unfolding after_write
  after_write-InOrder r (ok, bytes) v =
      subst (λ l. Within l w.logged) (sym (append_assoc w.written (r ∷ []) w.queue.items)) v
  after_write-InOrder r (discard e, bytes) v =
      Within-trans v (Within-prepend w.written (skip (Within-refl w.queue.items)))
  after_write-InOrder r (connection e, bytes) v = v

  after_pop-InOrder :
      (xs : List Record)
      → w.queue.items ≡ xs
      → InOrder w popping
      → let u = after_pop w (pop_from w.queue xs) in InOrder u u.pc
  unfolding after_pop pop_from
  after_pop-InOrder [] e v =
      let (k, h) = pop_nothing-Calm c w in Calm-InOrder popping refl (held-serving _ h) k v
  after_pop-InOrder (x ∷ xs) e v = subst (λ l. Within (w.written ++ l) w.logged) e v

  at_requeueing-InOrder :
      (r : Record) → InOrder w (requeueing r) → InOrder (at_requeueing r w) (at_requeueing r w).pc
  unfolding at_requeueing
  at_requeueing-InOrder r v =
      Within-trans v (Within-prepend w.written (push_front-Within w.queue r))

  work_at-InOrder :
      (to_writer : Object → Serialized) (o : Outcome) (p : Pc)
      → w.pc ≡ p
      → InOrder w p
      → let u = work_at c to_writer o w p in InOrder u u.pc
  unfolding work_at finish pop
  work_at-InOrder to_writer o reconnect e v =
      let (k, h) = at_reconnect-Calm c w o in Calm-InOrder reconnect refl (held-resting _ h) k v
  work_at-InOrder to_writer o connecting e v =
      after_connect-InOrder (connect c o.network w.flush_deadline w.now) v
  work_at-InOrder to_writer o greeting e v = at_greeting-InOrder o.write v
  work_at-InOrder to_writer o checking e v =
      let (k, h) = at_checking-Calm c w o in Calm-InOrder checking refl (held-serving _ h) k v
  work_at-InOrder to_writer o popping e v = after_pop-InOrder w.queue.items refl v
  work_at-InOrder to_writer o (writing r) e v =
      after_write-InOrder r (write_record to_writer o.write r) v
  work_at-InOrder to_writer o finishing e v = v
  work_at-InOrder to_writer o (requeueing r) e v = at_requeueing-InOrder r v
  work_at-InOrder to_writer o (settling total) e v = v
  work_at-InOrder to_writer o pausing e v =
      let (k, h) = at_pausing-Calm c w in Calm-InOrder pausing refl (held-resting _ h) k v
  work_at-InOrder to_writer o done e v = subst (InOrder w) (sym e) v

step-InOrder :
    (c : Config) (to_writer : Object → Serialized) (w : World) (e : Event)
    → InOrder w w.pc
    → let u = step c to_writer w e in InOrder u u.pc
unfolding step work request_shutdown
step-InOrder c to_writer w (logs r) v = log-InOrder w r v
step-InOrder c to_writer w closes v = v
step-InOrder c to_writer w (tells k) v = v
step-InOrder c to_writer w (ticks n) v = v
step-InOrder c to_writer w (works o) v = work_at-InOrder c w to_writer o w.pc refl v

run-InOrder :
    (c : Config) (to_writer : Object → Serialized) (w : World) (es : List Event)
    → InOrder w w.pc
    → let u = run c to_writer w es in InOrder u u.pc
unfolding run
run-InOrder c to_writer w [] v = v
run-InOrder c to_writer w (e ∷ es) v =
    run-InOrder c to_writer (step c to_writer w e) es (step-InOrder c to_writer w e v)

start-InOrder : (n : ℕ) → InOrder (start (new n)) reconnect
unfolding start new
start-InOrder n = nil

-- After any interleaving of the callers, the clock and the worker, the written entries, the one in
-- the worker's hand and the queued ones, in this order, are among the logged entries in the order in
-- which they were logged. So no entry is written twice, and none overtakes another.
pub run-start-InOrder :
    (c : Config) (to_writer : Object → Serialized) (n : ℕ) (es : List Event)
    → let w = run c to_writer (start (new n)) es in
      Within (w.written ++ (held w.pc ++ w.queue.items)) w.logged
run-start-InOrder c to_writer n es =
    run-InOrder c to_writer (start (new n)) es (unfold start in start-InOrder n)
