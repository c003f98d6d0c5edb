-- ===== src/Client/Tests.antt =====
-- Runs of the worker that follow the integration tests of tests/wire.rs, and the theorems at such
-- inputs.
use ecapplog_rust.Base.{
  ℕ, suc, zero, Option, ◌+◌, ◌*◌, ◌%◌, ◌≡◌, refl, List, [], ◌∷◌, ◌++◌, none, some, arith, length,
  ◌==◌, if◌then◌else◌, true,
}
use ecapplog_rust.Base.Int.{pos, rem_euclid}
use ecapplog_rust.Base.Text.{Text, codes, decimal}
use ecapplog_rust.Priority
use ecapplog_rust.Error.{IoError}
use ecapplog_rust.Error
use ecapplog_rust.Record.{Record, new as new_record}
use ecapplog_rust.Queue.{
  new, u64_mod, flush, push, push_front, pop, pop_from, finish, sleep_or_shutdown, request_shutdown,
}
use ecapplog_rust.Proto.{Object, string, strings, fields, from_record}
use ecapplog_rust.Timestamp.{format_utc}
use ecapplog_rust.Client.{
  second, Config, default_builder, build, found, Network, stream, connect, dial_timeout, Serialized,
  json, complete, broken, dial_each, write_record,
}
use ecapplog_rust.Client.Worker.{
  World, Outcome, start, Event, logs, closes, ticks, works, done, run, log, close, step, work,
  work_at, report_full, until_deadline, at_reconnect, after_connect, at_greeting, at_checking,
  after_pop, after_write, at_requeueing, at_settling, at_pausing,
}
use ecapplog_rust.Client.Shutdown.{run-done}
use ecapplog_rust.Client.Invariant.{Inv, held, run-start-Inv, flush-settled}
use ecapplog_rust.Client.Reports.{to_report, run-start-told}
use ecapplog_rust.Client.Reports.Kinds.{count, is_full, is_unsendable}
use ecapplog_rust.Client.Order.{Within, run-start-InOrder}
mod Connecting
mod Nested
mod Progress
mod Prints
mod Closes
mod Duration
mod Lifecycle
mod Serves
mod Refusing
mod Kept

abbrev pub settings : Config
unfolding build
settings = (build default_builder).0

abbrev pub entry : ℕ → Record
unfolding new_record
entry n = new_record (pos n) Priority.debug (codes "app") (codes "event")

-- The first address refuses, the second answers.
abbrev pub refusal : IoError
refusal = Error.addr_not_available

abbrev dials : ℕ → ℕ → Option IoError
dials a t = if a == 1 then some refusal else none

abbrev pub network : Network
network = record { to_socket_addrs = λ name. found (1 ∷ 2 ∷ 3 ∷ []); dial = dials }

abbrev pub dead : Network
dead = record { to_socket_addrs = λ name. found (1 ∷ 1 ∷ []); dial = dials }

-- The fields that are texts, each ended by a zero.
abbrev texts : Object → Text
texts [] = []
texts ((key, string s) ∷ rest) = s ++ 0 ∷ texts rest
texts ((key, strings s) ∷ rest) = texts rest

abbrev pub to_writer : Object → Serialized
to_writer o = json (texts o)

-- Ten years.
abbrev pub clock_end : ℕ
clock_end = 315360000 * second

abbrev online_at : Outcome
online_at = record { network = network; write = complete; lag = 1; latest = clock_end }

abbrev online : Event
online = works online_at

abbrev breaking : Event
breaking =
    works (record { network = network; write = broken 9 refusal; lag = 0; latest = clock_end })

abbrev pub works_for : ℕ → List Event → List Event
works_for zero es = es
works_for (suc n) es = online ∷ works_for n es

-- Two entries; the write of the second breaks after some bytes, and it is sent on a new connection.
abbrev pub history : List Event
history =
    logs (entry 0)
    ∷ works_for 6 (
        logs (entry 1) ∷ works_for 3 (breaking ∷ works_for 3 (ticks (5 * second) ∷ works_for 7 [])))

pub second_connection :
    (run settings to_writer (start (new 10)) history).written ≡ entry 0 ∷ entry 1 ∷ []
unfolding settings run start new entry log push step work connect dial_timeout dial_each
    at_reconnect report_full until_deadline after_connect at_greeting at_checking after_pop pop
    pop_from after_write write_record finish at_requeueing push_front at_settling at_pausing
    sleep_or_shutdown work_at fields from_record format_utc decimal rem_euclid Priority.as_str
second_connection = refl

abbrev closing : World
closing = run settings to_writer (start (new 10)) (logs (entry 0) ∷ closes ∷ [])

run-done_example : (run settings to_writer closing (works_for 9 [])).pc ≡ done
unfolding run start new step log push close request_shutdown
run-done_example = run-done settings to_writer closing (works_for 9 []) refl (omega arith)

run-start-Inv_example : Inv (run settings to_writer (start (new 10)) history)
run-start-Inv_example = run-start-Inv settings to_writer 10 history

flush-settled_example :
    let w = run settings to_writer (start (new 10)) history in
    (length w.written + length w.discarded + w.queue.dropped) % u64_mod ≡ length w.logged % u64_mod
unfolding settings run start new entry log push step work connect dial_timeout dial_each
    at_reconnect report_full until_deadline after_connect at_greeting at_checking after_pop pop
    pop_from after_write write_record finish at_requeueing push_front at_settling at_pausing
    sleep_or_shutdown work_at fields from_record format_utc decimal rem_euclid Priority.as_str flush
flush-settled_example = flush-settled settings to_writer 10 history refl

run-start-InOrder_example :
    let w = run settings to_writer (start (new 10)) history in
    Within (w.written ++ (held w.pc ++ w.queue.items)) w.logged
run-start-InOrder_example = run-start-InOrder settings to_writer 10 history

-- A connection has been greeted, two entries are queued, and the client was closed.
abbrev pub open_and_closing : World
unfolding run settings start new entry log push step work connect dial_timeout dial_each
    at_reconnect report_full until_deadline after_connect at_greeting work_at close request_shutdown
open_and_closing =
    run settings to_writer (start (new 10))
      (works_for 3 (logs (entry 0) ∷ logs (entry 1) ∷ closes ∷ []))

-- The connect at each step comes to the second address.
pub answered : (deadline : Option ℕ) (now : ℕ) → connect settings network deadline now ≡ stream 2
unfolding connect dial_each settings build
answered deadline now = refl

-- Another entry is logged meanwhile, and time passes.
abbrev meanwhile : List Event
meanwhile = works_for 5 (logs (entry 2) ∷ ticks second ∷ works_for 8 [])

-- A callback, and room for one entry.
abbrev watched : Config
watched = record settings { on_error = true }

run-start-told_example :
    let w = run watched to_writer (start (new 1)) (logs (entry 0) ∷ logs (entry 1) ∷ history) in
    ((count is_full w.reported + to_report w.pc + length w.telling) % u64_mod
      ≡ w.queue.dropped % u64_mod)
    × (count is_unsendable w.reported ≡ length w.discarded)
run-start-told_example =
    run-start-told watched to_writer 1 (logs (entry 0) ∷ logs (entry 1) ∷ history) refl
