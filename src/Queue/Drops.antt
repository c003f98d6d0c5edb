-- ===== src/Queue/Drops.antt =====
-- src/queue.rs: what is discarded.
use ecapplog_rust.Base.{
  ℕ, newest, newest_all, newest-newest-append, ◌+◌, ◌-◌, ◌%◌, ◌≤◌, ◌<◌, ◌≡◌, refl, ap, ◌∙◌, sym,
  List, [], ◌∷◌, ◌++◌, false, arith, length, drop, length-drop, length-append, append_assoc,
  append-nil,
}
use ecapplog_rust.Record.{Record}
use ecapplog_rust.Queue.{Queue, call, pushes, u64_mod, push, rest_of}
use ecapplog_rust.Queue.Bounds.{IsValid, call-IsValid, call-capacity}

unfoldable pub push_all : Queue → List Record → Queue
push_all q [] = q
push_all q (r ∷ rs) = push_all (push q r).0 rs

newest_full :
    (n : ℕ) (xs : List Record) (r : Record)
    → 1 ≤ n
    → length xs ≤ n
    → n ≤ length xs
    → newest n (xs ++ r ∷ []) ≡ rest_of xs ++ r ∷ []
newest_full n [] r pos h k = absurd (omega arith)
newest_full n (x ∷ xs) r pos h k =
    ap (λ j. drop j (x ∷ xs ++ r ∷ [])) {y = 1} (omega (arith, length-append xs (r ∷ [])))

newest_roomy :
    (n : ℕ) (xs : List Record) (r : Record) → length xs < n → newest n (xs ++ r ∷ []) ≡ xs ++ r ∷ []
newest_roomy n xs r h = newest_all n (xs ++ r ∷ []) (omega (arith, length-append xs (r ∷ [])))

-- One push before shutdown: the newest entries that fit are kept, and the total is returned exactly
-- when one was discarded.
record Pushed (q : Queue) (r : Record) : Type 0 where
  kept : (push q r).0.items ≡ newest q.capacity (q.items ++ r ∷ [])
  open_still : (push q r).0.shutdown ≡ false
  same_capacity : (push q r).0.capacity ≡ q.capacity
  total : (push q r).0.dropped ≡ (q.dropped + (length q.items + 1 - q.capacity)) % u64_mod

push-Pushed : (q : Queue) (r : Record) → IsValid q → q.shutdown ≡ false → Pushed q r
unfolding push
push-Pushed q r v s =
    ground
      (arith, newest_full q.capacity q.items r v.roomy v.bounded, newest_roomy q.capacity q.items r)

-- Pushing a run of entries before shutdown keeps the newest `capacity` of all entries, in order,
-- and counts exactly the others as dropped, modulo 2^64. The queue is valid.
pub push_all-newest :
    (q : Queue) (rs : List Record)
    → IsValid q
    → q.shutdown ≡ false
    → ((push_all q rs).items ≡ newest q.capacity (q.items ++ rs))
      × ((push_all q rs).dropped
          ≡ (q.dropped + (length q.items + length rs - q.capacity)) % u64_mod)
unfolding push_all
push_all-newest q [] v s =
    (rw append-nil (sym (newest_all q.capacity q.items v.bounded)), omega arith)
push_all-newest q (r ∷ rs) v s =
    let p = push-Pushed q r v s in
    let q' : Queue = (push q r).0 in
    let rest = push_all-newest q' rs (unfold call in call-IsValid q (pushes r) v) p.open_still in
    (
      rest.0
          ∙ rw (p.same_capacity, p.kept)
              (newest-newest-append q.capacity (q.items ++ r ∷ []) rs
                ∙ ap (newest q.capacity) (append_assoc q.items (r ∷ []) rs)),
      rest.1
          ∙ omega (
            arith,
            p.total,
            p.same_capacity,
            ap length p.kept,
            length-append q.items (r ∷ []),
            length-drop (length (q.items ++ r ∷ []) - q.capacity) (q.items ++ r ∷ []),
          ),
    )

pub push_all-IsValid :
    (q : Queue) (rs : List Record)
    → IsValid q
    → IsValid (push_all q rs) × ((push_all q rs).capacity ≡ q.capacity)
unfolding push_all
push_all-IsValid q [] v = (v, refl)
push_all-IsValid q (r ∷ rs) v =
    let (w, c) = push_all-IsValid (push q r).0 rs (unfold call in call-IsValid q (pushes r) v) in
    (w, c ∙ unfold call in call-capacity q (pushes r))
