-- ===== src/Client/Close/Steps.antt =====
-- src/client.rs: the worker's steps on the way to an empty queue.
use ecapplog_rust.Base.{
  ℕ, ◌+◌, ◌≡◌, refl, sym, ap, subst, ◌∙◌, List, [], ◌∷◌, ◌++◌, append_assoc, true, arith, some, ◌≤◌,
  All, Bool-cases, inl, inr, is_nil,
}
use ecapplog_rust.Record.{Record}
use ecapplog_rust.Queue.{pop, pop_from, finish, is_empty}
use ecapplog_rust.Proto.{Object}
use ecapplog_rust.Client.{Config, connect, Serialized, complete, write_json, write_record}
use ecapplog_rust.Client.Worker.{
  Pc, reconnect, connecting, greeting, checking, popping, finishing, pausing, done, writing,
  requeueing, settling, World, Outcome, works, until_deadline, at_reconnect, at_checking,
  at_greeting, after_connect, after_pop, after_write, work_at,
}
use ecapplog_rust.Client.Invariant.{held}
use ecapplog_rust.Client.Close.{
  short_enough, is_on_course, Ended, deadline_of, InTime, Sendable, IsGood, Drains,
}

is_nil→eq {ℓ} : {A : Type ℓ} (xs : List A) → is_nil xs ≡ true → xs ≡ []
is_nil→eq [] h = refl
is_nil→eq (x ∷ xs) h = cc

module _ (c : Config) (to_writer : Object → Serialized) where
  module _ (limit : ℕ) (w : World) (goal : List Record) (t : ℕ) where
    in_time :
        (o : Outcome) (next : Pc)
        → limit ≤ o.latest
        → InTime c limit w (o.lag + t)
        → until_deadline c o w next
          ≡ record w { flush_deadline = some (deadline_of c w); now = w.now + o.lag; pc = next }
    unfolding until_deadline
    in_time o next r h = ground arith

    weaken :
        (lag : ℕ) (p : Pc)
        → Drains c to_writer limit w p goal (lag + t)
        → Drains c to_writer limit w p goal t
    weaken lag p d = record {
      down = d.down;
      on_course = d.on_course;
      left = d.left;
      sendable = d.sendable;
      time_left = omega (arith, d.time_left);
      ended = d.ended;
    }

    -- A test of the deadline in time, from a place where nothing is held to another.
    from_test :
        (o : Outcome) (p next : Pc)
        → limit ≤ o.latest
        → held p ≡ []
        → held next ≡ []
        → is_on_course next ≡ true
        → Ended next w.queue.items
        → Drains c to_writer limit w p goal (o.lag + t)
        → let u = until_deadline c o w next in Drains c to_writer limit u u.pc goal t
    from_test o p next r hp hn on e d = rw (in_time o next r d.time_left) (record {
      down = d.down;
      on_course = on;
      left = ap (λ l. w.written ++ (l ++ w.queue.items)) (hn ∙ sym hp) ∙ d.left;
      sendable =
          subst (λ l. All (Sendable c to_writer) (l ++ w.queue.items)) (hp ∙ sym hn) d.sendable;
      time_left = omega (arith, d.time_left);
      ended = e;
    })

    from_reconnect :
        (o : Outcome)
        → limit ≤ o.latest
        → c.flush_on_close ≡ true
        → Drains c to_writer limit w reconnect goal (o.lag + t)
        → let u = at_reconnect c o w in Drains c to_writer limit u u.pc goal t
    unfolding at_reconnect is_empty
    from_reconnect o r f d = elim (Bool-cases (is_nil w.queue.items)) [
      | inl b ↦
          rw (d.down, f, b)
            (record {
              down = refl;
              on_course = refl;
              left = d.left;
              sendable = d.sendable;
              time_left = omega (arith, d.time_left);
              ended = is_nil→eq w.queue.items b;
            })
      | inr b ↦
          subst (λ u. Drains c to_writer limit u u.pc goal t) (sym (rw (d.down, f, b) refl))
            (from_test o reconnect connecting r refl refl refl tt d)
    ]

    from_connecting :
        (o : Outcome)
        → IsGood c to_writer limit (works o)
        → Drains c to_writer limit w connecting goal t
        → let u = after_connect c w (connect c o.network w.flush_deadline w.now) in
          Drains c to_writer limit u u.pc goal t
    unfolding after_connect
    from_connecting o (a, answers, good, r) d = rw (answers w.flush_deadline w.now) (record {
      down = d.down;
      on_course = refl;
      left = d.left;
      sendable = d.sendable;
      time_left = d.time_left;
      ended = tt;
    })

    from_greeting :
        Drains c to_writer limit w greeting goal t
        → let u = at_greeting c complete w in Drains c to_writer limit u u.pc goal t
    unfolding at_greeting
    from_greeting d = record {
      down = d.down;
      on_course = refl;
      left = d.left;
      sendable = d.sendable;
      time_left = d.time_left;
      ended = tt;
    }

    from_checking :
        (o : Outcome)
        → limit ≤ o.latest
        → c.flush_on_close ≡ true
        → Drains c to_writer limit w checking goal (o.lag + t)
        → let u = at_checking c o w in Drains c to_writer limit u u.pc goal t
    unfolding at_checking
    from_checking o r f d =
        subst (λ u. Drains c to_writer limit u u.pc goal t) (sym (rw (d.down, f) refl))
          (from_test o checking popping r refl refl refl tt d)

    from_popping :
        (xs : List Record)
        → w.queue.items ≡ xs
        → Drains c to_writer limit w popping goal t
        → let u = after_pop w (pop_from w.queue xs) in Drains c to_writer limit u u.pc goal t
    unfolding after_pop pop_from
    from_popping [] e d = rw d.down (record {
      down = refl;
      on_course = refl;
      left = d.left;
      sendable = d.sendable;
      time_left = d.time_left;
      ended = e;
    })
    from_popping (x ∷ xs) e d = record {
      down = d.down;
      on_course = refl;
      left = subst (λ l. w.written ++ l ≡ goal) e d.left;
      sendable = subst (All (Sendable c to_writer)) e d.sendable;
      time_left = d.time_left;
      ended = tt;
    }

    from_writing :
        (r : Record)
        → Drains c to_writer limit w (writing r) goal t
        → let u = after_write c w r (write_record to_writer complete r) in
          Drains c to_writer limit u u.pc goal t
    unfolding write_record write_json after_write
    from_writing r d =
        let ((b, j, short), rest) = d.sendable in
        rw (j, short_enough b short)
          (record {
            down = d.down;
            on_course = refl;
            left = append_assoc w.written (r ∷ []) w.queue.items ∙ d.left;
            sendable = rest;
            time_left = d.time_left;
            ended = tt;
          })

    pub work_at-Drains :
        (o : Outcome) (p : Pc)
        → c.flush_on_close ≡ true
        → IsGood c to_writer limit (works o)
        → w.pc ≡ p
        → Drains c to_writer limit w p goal (o.lag + t)
        → let u = work_at c to_writer o w p in Drains c to_writer limit u u.pc goal t
    unfolding work_at pop finish
    work_at-Drains o reconnect f g e d = from_reconnect o g.3 f d
    work_at-Drains o connecting f g e d = from_connecting o g (weaken o.lag connecting d)
    work_at-Drains o greeting f (a, answers, good, r) e d =
        rw good (from_greeting (weaken o.lag greeting d))
    work_at-Drains o checking f g e d = from_checking o g.3 f d
    work_at-Drains o popping f g e d = from_popping w.queue.items refl (weaken o.lag popping d)
    work_at-Drains o (writing r) f (a, answers, good, fits) e d =
        rw good (from_writing r (weaken o.lag (writing r) d))
    work_at-Drains o finishing f g e d = record {
      down = d.down;
      on_course = refl;
      left = d.left;
      sendable = d.sendable;
      time_left = omega (arith, d.time_left);
      ended = tt;
    }
    work_at-Drains o (requeueing r) f g e d = cc (d.on_course)
    work_at-Drains o (settling total) f g e d = cc (d.on_course)
    work_at-Drains o pausing f g e d = cc (d.on_course)
    work_at-Drains o done f g e d =
        subst (λ p. Drains c to_writer limit w p goal t) (sym e) (weaken o.lag done d)
