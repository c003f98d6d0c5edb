-- ===== src/Queue/Threads/Calls.antt =====
-- src/queue.rs: what the threads do to the queue, as calls one after the other.
use ecapplog_rust.Base.{ℕ, List, [], ◌∷◌, ◌++◌, ◌≡◌, refl, sym, ◌∙◌, ap, append-nil}
use ecapplog_rust.Queue.{
  Queue, Call, pushes, push_fronts, pops, finishes, shuts_down, new, call, run,
}
use ecapplog_rust.Queue.Threads.{
  Threads, calling, Step, caller_pushes, caller_shuts_down, worker_puts_back, worker_finishes,
  pop_takes, pop_waits, pop_waits_on, pop_ends, sleep_waits, sleep_waits_on, sleep_ends,
  flush_waits, flush_waits_on, flush_ends, notifies_work, notifies_drained, worker_wakes,
  flusher_wakes, Reach, start, later,
}

run-append : (q : Queue) (cs : List Call) (c : Call) → run q (cs ++ c ∷ []) ≡ call (run q cs) c
unfolding run
run-append q [] c = refl
run-append q (d ∷ cs) c = run-append (call q d) cs c

-- The calls whose critical sections have run, in their order.
abbrev section_of : {t u : Threads} → Step t u → List Call
section_of (caller_pushes r) = pushes r ∷ []
section_of caller_shuts_down = shuts_down ∷ []
section_of (worker_puts_back r e) = push_fronts r ∷ []
section_of (worker_finishes e) = finishes ∷ []
section_of (pop_takes e b) = pops ∷ []
section_of (pop_ends e) = pops ∷ []
section_of _ = []

abbrev pub sections : {n : ℕ} {t : Threads} → Reach n t → List Call
sections start = []
sections (later r s) = sections r ++ section_of s

called :
    {p : Queue} (q : Queue) (cs : List Call) (c : Call)
    → p ≡ run q cs
    → call p c ≡ run q (cs ++ c ∷ [])
called q cs c h = ap (λ x. call x c) h ∙ sym (run-append q cs c)

left_alone : {p : Queue} (q : Queue) (cs : List Call) → p ≡ run q cs → p ≡ run q (cs ++ [])
left_alone q cs h = h ∙ ap (run q) (sym (append-nil cs))

Step-run :
    {t u : Threads} (s : Step t u) (q : Queue) (cs : List Call)
    → t.queue ≡ run q cs
    → u.queue ≡ run q (cs ++ section_of s)
unfolding calling
Step-run (caller_pushes r) q cs h = called q cs (pushes r) h
Step-run caller_shuts_down q cs h = called q cs shuts_down h
Step-run (worker_puts_back r e) q cs h = called q cs (push_fronts r) h
Step-run (worker_finishes e) q cs h = called q cs finishes h
Step-run (pop_takes e b) q cs h = called q cs pops h
Step-run (pop_ends e) q cs h = called q cs pops h
Step-run (pop_waits e b) q cs h = left_alone q cs h
Step-run (pop_waits_on e b) q cs h = left_alone q cs h
Step-run (sleep_waits e b) q cs h = left_alone q cs h
Step-run (sleep_waits_on e b) q cs h = left_alone q cs h
Step-run (sleep_ends e) q cs h = left_alone q cs h
Step-run (flush_waits i e b) q cs h = left_alone q cs h
Step-run (flush_waits_on i e b) q cs h = left_alone q cs h
Step-run (flush_ends i e) q cs h = left_alone q cs h
Step-run (notifies_work before n after e) q cs h = left_alone q cs h
Step-run (notifies_drained before n after f e x) q cs h = left_alone q cs h
Step-run worker_wakes q cs h = left_alone q cs h
Step-run (flusher_wakes i) q cs h = left_alone q cs h

-- What the threads do to the queue is what their calls do one after the other, in the order of their
-- critical sections, however the calls, the waits and the notifications interleave.
pub Reach-run : {n : ℕ} {t : Threads} (r : Reach n t) → t.queue ≡ run (new n) (sections r)
unfolding run
Reach-run start = refl
Reach-run {n} (later r s) = Step-run s (new n) (sections r) (Reach-run r)
