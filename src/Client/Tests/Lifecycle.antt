-- ===== src/Client/Tests/Lifecycle.antt =====
-- src/client.rs: a client with two clones that is closed by the drop of the last one.
use ecapplog_rust.Base.{ℕ, zero, suc, ◌+◌, ◌%◌, ◌≡◌, refl, [], true, arith, length}
use ecapplog_rust.Base.Int.{rem_euclid}
use ecapplog_rust.Base.Text.{decimal}
use ecapplog_rust.Priority
use ecapplog_rust.Queue.{new, u64_mod, push, pop, pop_from, finish, is_empty, request_shutdown}
use ecapplog_rust.Proto.{fields, from_record}
use ecapplog_rust.Timestamp.{format_utc}
use ecapplog_rust.Client.{connect, dial_timeout, dial_each, write_record}
use ecapplog_rust.Client.Worker.{
  works, start, done, run, log, close, step, work, work_at, report_full, until_deadline,
  at_reconnect, after_connect, at_greeting, at_checking, after_pop, after_write,
}
use ecapplog_rust.Client.Lifecycle.{
  Inner, over, built, drop_takes, after, clones_it, drops_clone, logs_entry, drops_last,
  drop_goes_on, drop_returns, worker_works, Reach, begin, next,
}
use ecapplog_rust.Client.Lifecycle.Ends.{waiting, Reach-waits, Reach-over}
use ecapplog_rust.Client.Tests.{settings, to_writer, entry, online_at, works_for}

-- The worker takes `n` steps.
abbrev worked : ℕ → Inner → Inner
unfolding after
worked zero l = l
worked (suc n) l = worked n (after settings to_writer (works online_at) l)

Reach-worked :
    (n : ℕ) {b : ℕ} (l : Inner)
    → l.spawned ≡ true
    → Reach settings to_writer b true l
    → Reach settings to_writer b true (worked n l)
unfolding worked after
Reach-worked zero l s r = r
Reach-worked (suc n) l s r =
    Reach-worked n (after settings to_writer (works online_at) l) s
      (next r (worker_works online_at s))

record Reached : Type 0 where
  now : Inner
  reach : Reach settings to_writer 10 true now

-- An entry is logged, and the client is cloned; a clone is dropped, and then the other.
abbrev dropped : Reached
unfolding built after drop_takes step push start new
dropped =
    let r : Reach settings to_writer 10 true (built 10 true) = begin in
    let r = next r (logs_entry (entry 0) (omega arith)) in
    let r = next r (clones_it (omega arith)) in
    let r = next r (drops_clone (omega arith)) in
    let r = next r (drops_last refl refl refl refl) in
    record { now = _; reach = next r (drop_goes_on refl) }

Reach-waits_example :
    (waiting dropped.now ≡ 1)
    × (dropped.now.spawned ≡ true)
    × (dropped.now.world.queue.shutdown ≡ true)
    × ((run settings to_writer dropped.now.world (works_for 9 [])).pc ≡ done)
unfolding dropped built after drop_takes start new step log push close request_shutdown
Reach-waits_example =
    Reach-waits settings to_writer dropped.reach (works_for 9 []) (omega arith) (omega arith)

abbrev ended : Inner
ended = record (worked 9 dropped.now) { dropping = over }

Reach-ended : Reach settings to_writer 10 true ended
unfolding worked dropped built after drop_takes settings run start new entry log push step work
    connect dial_timeout dial_each at_reconnect report_full until_deadline after_connect at_greeting
    at_checking after_pop pop pop_from after_write write_record finish work_at close
    request_shutdown fields from_record format_utc decimal rem_euclid Priority.as_str is_empty
Reach-ended = next (Reach-worked 9 dropped.now refl dropped.reach) (drop_returns refl refl)

Reach-over_example :
    let w = ended.world in
    (w.pc ≡ done)
    × (w.queue.shutdown ≡ true)
    × ((length w.written + length w.discarded + length w.queue.items + w.queue.dropped) % u64_mod
        ≡ length w.logged % u64_mod)
Reach-over_example = Reach-over settings to_writer Reach-ended refl
