-- ===== src/Client/Handle.antt =====
-- src/client.rs: the methods of `Client` beside `log` and `close`. The clock that `Record::new` reads
-- is an argument, and the state is the one that the worker runs on.
use ecapplog_rust.Base.{ℕ, Bool}
use ecapplog_rust.Base.Int.{ℤ}
use ecapplog_rust.Base.Text.{Text}
use ecapplog_rust.Priority.{Priority}
use ecapplog_rust.Record.{new as new_record}
use ecapplog_rust.Queue
use ecapplog_rust.Queue.{Queue}
use ecapplog_rust.Client.{Config, ClientBuilder, default_builder, build}
use ecapplog_rust.Client.Worker.{World, log}

-- `new` and `Default`, as what the worker is started on.
unfoldable new : Config × Queue
unfolding build
new = build default_builder

unfoldable builder : ClientBuilder
builder = default_builder

unfoldable pub log_now : Config → ℤ → Priority → Text → Text → World → World
unfolding log new_record
log_now c now priority category message w = log c (new_record now priority category message) w

unfoldable trace : Config → ℤ → Text → Text → World → World
unfolding log_now
trace c now category message w = log_now c now Priority.trace category message w

unfoldable debug : Config → ℤ → Text → Text → World → World
unfolding log_now
debug c now category message w = log_now c now Priority.debug category message w

unfoldable pub info : Config → ℤ → Text → Text → World → World
unfolding log_now
info c now category message w = log_now c now Priority.information category message w

unfoldable notice : Config → ℤ → Text → Text → World → World
unfolding log_now
notice c now category message w = log_now c now Priority.notice category message w

unfoldable warning : Config → ℤ → Text → Text → World → World
unfolding log_now
warning c now category message w = log_now c now Priority.warning category message w

unfoldable error : Config → ℤ → Text → Text → World → World
unfolding log_now
error c now category message w = log_now c now Priority.error category message w

unfoldable critical : Config → ℤ → Text → Text → World → World
unfolding log_now
critical c now category message w = log_now c now Priority.critical category message w

unfoldable fatal : Config → ℤ → Text → Text → World → World
unfolding log_now
fatal c now category message w = log_now c now Priority.fatal category message w

-- What `flush` answers when its wait is over.
unfoldable pub flush : World → Bool
flush w = Queue.flush w.queue

unfoldable pub dropped_count : World → ℕ
dropped_count w = w.queue.dropped
