-- ===== src/Client/Close/Drained.antt =====
-- src/client.rs: a close that is to drain the queue, with the other threads.
use ecapplog_rust.Record.{Record}
use ecapplog_rust.Queue.{Queue}
