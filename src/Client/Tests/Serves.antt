-- ===== src/Client/Tests/Serves.antt =====
-- src/client.rs with examples/mock_server.rs: the server reads the two connections of a run.
use ecapplog_rust.Base.{List, [], ◌∷◌, ◌++◌, map, take, drop, some, refl, arith}
use ecapplog_rust.Base.Int.{rem_euclid}
use ecapplog_rust.Base.Text.{Text, codes, decimal}
use ecapplog_rust.Priority
use ecapplog_rust.Queue.{new, push, push_front, pop, pop_from, finish, sleep_or_shutdown}
use ecapplog_rust.Proto.{fields, from_record, banner_payload, encode_frame}
use ecapplog_rust.Timestamp.{format_utc}
use ecapplog_rust.Client.{build, connect, dial_timeout, dial_each, write_record, accepted as taken}
use ecapplog_rust.Client.Worker.{
  start, run, log, step, work, work_at, report_full, until_deadline, at_reconnect, after_connect,
  at_greeting, at_checking, after_pop, after_write, at_requeueing, at_settling, at_pausing,
}
use ecapplog_rust.Client.Wire.Steps.{payload_of}
use ecapplog_rust.Client.Wire.Served.{AllRead, AllShown, in_pieces, run-start-served}
use ecapplog_rust.Server.Connections.{got, connection_reset, Incoming, accepted, by_reset, HasBytes}
use ecapplog_rust.Client.Tests.{settings, to_writer, history, entry}

-- The first seven bytes come in one read, and the others in another.
abbrev read_twice : Text → Incoming
read_twice s =
    accepted (some (codes "local")) (map got (take 7 s ∷ drop 7 s ∷ []) ++ connection_reset ∷ [])

abbrev visits : List Incoming
visits = map read_twice (run settings to_writer (start (new 10)) history).streams

all_read : AllRead (run settings to_writer (start (new 10)) history).streams visits
unfolding settings build run start new entry log push step work connect dial_timeout dial_each
    at_reconnect report_full until_deadline after_connect at_greeting at_checking after_pop pop
    pop_from after_write write_record finish at_requeueing push_front at_settling at_pausing
    sleep_or_shutdown work_at fields from_record format_utc decimal rem_euclid Priority.as_str taken
    encode_frame banner_payload
all_read =
    let read = λ (a b : Text) (h : HasBytes a) (k : HasBytes b).
      in_pieces (some (codes "local")) (a ∷ b ∷ []) connection_reset [] refl (h, (k, tt))
        by_reset in
    (read _ _ refl refl, (read _ _ refl refl, tt))

run-start-served_example :
    AllShown settings.app_name visits
      (map (payload_of to_writer) (run settings to_writer (start (new 10)) history).written)
unfolding settings build banner_payload
run-start-served_example =
    run-start-served settings to_writer 10 history visits (omega arith) all_read
