-- ===== src/Queue/Bounds.antt =====
-- src/queue.rs: the capacity, over the calls of all threads.
use ecapplog_rust.Base.{
  ℕ, ◌≤◌, ◌<◌, ◌≡◌, refl, ◌∙◌, max, List, [], ◌∷◌, arith, length, length-append,
}
use ecapplog_rust.Record.{Record}
use ecapplog_rust.Queue.{
  Queue, Call, pushes, push_fronts, pops, finishes, shuts_down, u64_mod, new, call, run, pop_from,
}

pub record IsValid (q : Queue) : Type 0 where
  pub roomy : 1 ≤ q.capacity
  pub bounded : length q.items ≤ q.capacity
  pub counted : q.dropped < u64_mod

pub new-IsValid : (n : ℕ) → IsValid (new n)
unfolding new
new-IsValid n = omega arith

module _ (q : Queue) (r : Record) (v : IsValid q) where
  push-IsValid : (xs : List Record) → q.items ≡ xs → IsValid (call q (pushes r))
  unfolding call
  push-IsValid [] e = ground (arith, length-append q.items (r ∷ []))
  push-IsValid (x ∷ xs) e =
      ground (arith, length-append q.items (r ∷ []), length-append xs (r ∷ []))

  push_front-IsValid : IsValid (call q (push_fronts r))
  unfolding call
  push_front-IsValid = ground arith

pub pop_from-IsValid :
    (q : Queue) (xs : List Record) → q.items ≡ xs → IsValid q → IsValid (pop_from q xs).0
unfolding pop_from
pop_from-IsValid q [] e v = v
pop_from-IsValid q (x ∷ xs) e v = ground arith

-- Every call of every thread keeps the queue valid: its capacity is positive, it holds at most
-- that many entries, and the drop count is a 64-bit number.
pub call-IsValid : (q : Queue) (c : Call) → IsValid q → IsValid (call q c)
unfolding call
call-IsValid q (pushes r) v = push-IsValid q r v q.items refl
call-IsValid q (push_fronts r) v = push_front-IsValid q r v
call-IsValid q pops v = pop_from-IsValid q q.items refl v
call-IsValid q finishes v = record { roomy = v.roomy; bounded = v.bounded; counted = v.counted }
call-IsValid q shuts_down v = record { roomy = v.roomy; bounded = v.bounded; counted = v.counted }

run-IsValid : (q : Queue) (cs : List Call) → IsValid q → IsValid (run q cs)
unfolding run
run-IsValid q [] v = v
run-IsValid q (c ∷ cs) v = run-IsValid (call q c) cs (call-IsValid q c v)

pub pop_from-capacity : (q : Queue) (xs : List Record) → (pop_from q xs).0.capacity ≡ q.capacity
unfolding pop_from
pop_from-capacity q [] = refl
pop_from-capacity q (x ∷ xs) = refl

pub call-capacity : (q : Queue) (c : Call) → (call q c).capacity ≡ q.capacity
unfolding call
call-capacity q (pushes r) = ground arith
call-capacity q (push_fronts r) = ground arith
call-capacity q pops = pop_from-capacity q q.items
call-capacity q finishes = refl
call-capacity q shuts_down = refl

run-capacity : (q : Queue) (cs : List Call) → (run q cs).capacity ≡ q.capacity
unfolding run
run-capacity q [] = refl
run-capacity q (c ∷ cs) = run-capacity (call q c) cs ∙ call-capacity q c

new-capacity : (n : ℕ) → (new n).capacity ≡ max n 1
unfolding new
new-capacity n = refl

-- A new queue stays valid under every interleaving of calls, and never holds more than the larger
-- of the requested capacity and one.
run-new-bounded :
    (n : ℕ) (cs : List Call) → IsValid (run (new n) cs) × (length (run (new n) cs).items ≤ max n 1)
run-new-bounded n cs =
    let v = run-IsValid (new n) cs (new-IsValid n) in
    (v, omega (arith, v.bounded, new-capacity n, run-capacity (new n) cs))
