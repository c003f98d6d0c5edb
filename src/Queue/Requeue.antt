-- ===== src/Queue/Requeue.antt =====
-- src/queue.rs: what the worker takes, and what a failed write puts back.
use ecapplog_rust.Base.{
  ℕ, suc, ◌+◌, ◌-◌, ◌%◌, ◌≤◌, ◌≡◌, refl, ap, ◌∙◌, sym, List, [], ◌∷◌, ◌++◌, true, false, arith,
  length, drop, length-drop, length-append, newest, newest_all, inl, inr, Bool-cases,
}
use native.Mathlib.Decide.{dec_lt}
use ecapplog_rust.Record.{Record}
use ecapplog_rust.Queue.{Queue, u64_mod, pop, pop_from, push_front, Pop, item, shut_down, idle}
use ecapplog_rust.Queue.Bounds.{IsValid, pop_from-IsValid}
use ecapplog_rust.Queue.Drops.{push_all, push_all-newest, push_all-IsValid}

-- What `pop` finds, entry by entry. An entry is handed out whether or not shutdown was requested,
-- and shutdown is reported only once nothing is queued.
abbrev pub Finds : Queue → Queue → Pop → Type 0
Finds q q' (item r) = (q.items ≡ r ∷ q'.items) × (q'.busy ≡ true) × (q'.shutdown ≡ q.shutdown)
Finds q q' shut_down = (q.items ≡ []) × (q.shutdown ≡ true) × (q' ≡ q)
Finds q q' idle = (q.items ≡ []) × (q.shutdown ≡ false) × (q' ≡ q)

pop_from-Finds :
    (q : Queue) (xs : List Record) → q.items ≡ xs → Finds q (pop_from q xs).0 (pop_from q xs).1
unfolding pop_from
pop_from-Finds q [] e = elim (Bool-cases q.shutdown) [
  | inl h ↦ simp h (e, refl, refl)
  | inr h ↦ simp h (e, refl, refl)
]
pop_from-Finds q (x ∷ xs) e = (e, refl, refl)

-- `pop` hands out the oldest entry and marks the queue busy; it reports shutdown exactly when
-- nothing is queued and shutdown was requested, and idle when neither, changing nothing then.
pub pop-Finds : (q : Queue) → Finds q (pop q).0 (pop q).1
unfolding pop
pop-Finds q = pop_from-Finds q q.items refl

newest-cons :
    (n : ℕ) (x : Record) (xs : List Record) → n ≤ length xs → newest n (x ∷ xs) ≡ newest n xs
newest-cons n x xs h = ap (λ k. drop k (x ∷ xs)) {y = suc (length xs - n)} (omega arith)

module _ (q : Queue) (r : Record) (zs : List Record) (v : IsValid q) where
  push_front-newest :
      q.items ≡ newest q.capacity zs
      → ((push_front q r).0.items ≡ newest q.capacity (r ∷ zs))
        × ((push_front q r).0.dropped ≡ (q.dropped + (length q.items + 1 - q.capacity)) % u64_mod)
  unfolding push_front
  push_front-newest e = elim (dec_lt (length zs) q.capacity) [
    | yes h ↦ ground (arith, v.counted, newest_all q.capacity zs, newest_all q.capacity (r ∷ zs), e)
    | no h ↦ ground (
      arith,
      v.counted,
      newest-cons q.capacity r zs,
      e,
      length-drop (length zs - q.capacity) zs,
      ap length e,
    )
  ]

-- A failed write costs nothing beyond the bound: popping the oldest entry, letting any run of
-- entries arrive before shutdown, and putting the popped one back leaves the newest `capacity` of
-- all of them in their order, and counts the others as dropped, modulo 2^64, as if it had never
-- been taken. The queue is valid.
pub push_front-push_all-pop :
    (q : Queue) (r : Record) (xs rs : List Record)
    → IsValid q
    → q.shutdown ≡ false
    → q.items ≡ r ∷ xs
    → let after = (push_front (push_all (pop q).0 rs) r).0 in
      (after.items ≡ newest q.capacity (q.items ++ rs))
      × (after.dropped ≡ (q.dropped + (length q.items + length rs - q.capacity)) % u64_mod)
unfolding pop pop_from
push_front-push_all-pop q r xs rs v s e =
    rw (ap (pop_from q) e, e)
      (
        f.0 ∙ ap (λ c. newest c (r ∷ xs ++ rs)) w.1,
        f.1
            ∙ omega (
              arith,
              ap length e,
              k.1,
              w.1,
              ap length k.0,
              length-append xs rs,
              length-drop (length (xs ++ rs) - q.capacity) (xs ++ rs),
            ),
      )
  where
    p : Queue
    p = (pop_from q (r ∷ xs)).0

    vp : IsValid p
    vp = pop_from-IsValid q (r ∷ xs) e v

    k :
        ((push_all p rs).items ≡ newest q.capacity (xs ++ rs))
        × ((push_all p rs).dropped ≡ (q.dropped + (length xs + length rs - q.capacity)) % u64_mod)
    k = push_all-newest p rs vp s

    w : IsValid (push_all p rs) × ((push_all p rs).capacity ≡ q.capacity)
    w = push_all-IsValid p rs vp

    f :
        ((push_front (push_all p rs) r).0.items ≡ newest (push_all p rs).capacity (r ∷ xs ++ rs))
        × ((push_front (push_all p rs) r).0.dropped
            ≡ ((push_all p rs).dropped
                + (length (push_all p rs).items + 1 - (push_all p rs).capacity))
              % u64_mod)
    f =
        push_front-newest (push_all p rs) r (xs ++ rs) w.0
          (k.0 ∙ ap (λ c. newest c (xs ++ rs)) (sym w.1))
