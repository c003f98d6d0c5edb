-- ===== src/Queue/Tests.antt =====
-- Runs of the queue that follow the unit tests of src/queue.rs, and the theorems at such inputs.
use ecapplog_rust.Base.{
  ℕ, ◌≡◌, refl, List, [], ◌∷◌, ◌++◌, map, none, some, true, false, arith, newest,
}
use ecapplog_rust.Base.Int.{pos}
use ecapplog_rust.Base.Text.{codes}
use ecapplog_rust.Priority
use ecapplog_rust.Record.{Record, new as new_record}
use ecapplog_rust.Queue.{
  Queue, Call, pushes, push_fronts, pops, finishes, shuts_down, new, push, push_front, pop, flush,
  run, pop_from,
}
use ecapplog_rust.Queue.Bounds.{IsValid}
use ecapplog_rust.Queue.Drops.{push_all, push_all-newest}
use ecapplog_rust.Queue.Requeue.{push_front-push_all-pop}
mod Threads

abbrev pub entry : ℕ → Record
unfolding new_record
entry n = new_record (pos n) Priority.debug (codes "app") (n ∷ [])

abbrev entries : List Record
entries = map entry (0 ∷ 1 ∷ 2 ∷ 3 ∷ 4 ∷ [])

keeps_the_newest_when_full :
    ((push_all (new 3) entries).items ≡ map entry (2 ∷ 3 ∷ 4 ∷ []))
    × ((push_all (new 3) entries).dropped ≡ 2)
unfolding push_all new push
keeps_the_newest_when_full = (refl, refl)

reports_each_drop_once :
    ((push (new 1) (entry 0)).1 ≡ none)
    × ((push (push (new 1) (entry 0)).0 (entry 1)).1 ≡ some 1)
    × ((push_front (push (new 1) (entry 0)).0 (entry 1)).1 ≡ some 1)
unfolding new push push_front
reports_each_drop_once = (refl, refl, refl)

flush_waits_for_a_held_entry :
    (flush (run (new 4) (pushes (entry 0) ∷ pops ∷ [])) ≡ false)
    × (flush (run (new 4) (pushes (entry 0) ∷ pops ∷ finishes ∷ [])) ≡ true)
unfolding run new pop_from flush
flush_waits_for_a_held_entry = (refl, refl)

history : List Call
history =
    pushes (entry 0)
    ∷ pushes (entry 1)
    ∷ pops
    ∷ pushes (entry 2)
    ∷ push_fronts (entry 0)
    ∷ shuts_down
    ∷ []

abbrev filled : Queue
unfolding run new push push_all
filled = push_all (new 2) (entry 0 ∷ entry 1 ∷ [])

filled-IsValid : IsValid filled
unfolding filled push_all new push
filled-IsValid = omega arith

push_all-newest_example :
    ((push_all filled entries).items ≡ newest filled.capacity (filled.items ++ entries))
    × ((push_all filled entries).dropped ≡ 5)
unfolding filled push_all new push
push_all-newest_example = push_all-newest filled entries filled-IsValid refl

push_front-push_all-pop_example :
    let after = (push_front (push_all (pop filled).0 entries) (entry 0)).0 in
    (after.items ≡ newest filled.capacity (filled.items ++ entries)) × (after.dropped ≡ 5)
unfolding filled push_all new push
push_front-push_all-pop_example =
    push_front-push_all-pop filled (entry 0) (entry 1 ∷ []) entries filled-IsValid refl refl
