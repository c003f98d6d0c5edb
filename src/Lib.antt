-- ===== src/Lib.antt =====
-- The Rust client library `ecapplog`, which sends log entries to the ECAppLog GUI over TCP: its entries
-- and their text on the wire, the bounded queue between the callers and one worker thread, that
-- worker, and the adapters for the `log` facade and for `tracing`.
--
-- A caller builds a `Record` and passes it to `Client::log`, which pushes it on the `Queue`. The
-- worker connects, greets the server with a banner frame, and then pops entries, turns each into JSON
-- and a frame, and writes it; a broken connection puts the entry back and reconnects. `LogLogger`
-- turns the records of the facade into entries, and `TracingLayer` the events of `tracing`, with what
-- it keeps of their spans. The example `mock_server` decodes what is sent and prints it.
--
--   Base         numbers, lists, integers and texts that all modules share
--   Priority     src/priority.rs: `Priority`, `as_str`, `is_error`, `is_error_or_warning`, `from_str`
--   Record       src/record.rs: `Record` and its builder; a `SystemTime` is the signed number of
--                nanoseconds since the epoch, and the clock that `Record::new` reads an argument
--   Timestamp    src/timestamp.rs: `civil_from_days` and `format_utc`, beside an independent calendar
--   Proto        src/proto.rs: the log payload as the fields of its JSON object, and the frames
--   Error        src/error.rs: `Error` and its messages
--   Queue        src/queue.rs: one definition for each method, which is the method's critical
--                section; the waits on the two condition variables are the predicates on which
--                they block, and `wakes` says what each call notifies. Queue/Threads has the waits
--                themselves: threads that test, sleep, and are notified or wake by themselves
--   Client       src/client.rs: `Config`, `ClientBuilder`, `connect` and `write_record`;
--                Client/Builder the methods of `ClientBuilder`, Client/Handle those of `Client`,
--                Client/Worker the function `worker` and `Client::log` as steps on one state;
--                Client/Lifecycle `Inner`, its `close` and its drop, and the clones that share it;
--                Client/Close is about what happens once a close began, Client/Refusing about
--                entries that come after it, Client/Kept about a client with room for all entries,
--                Client/Progress about one whose connects are answered,
--                Client/Reports about the callback, Client/Nested about one that itself logs while
--                other threads go on,
--                Client/Wire about the bytes of the connections and what is shown of them
--   Crates       what the source uses of `log`, `tracing_subscriber` and serde_json, as interfaces
--   AdapterLog   src/adapter_log.rs: `LogLogger`; AdapterLog/Builder its builder and `init`
--   AdapterTracing  src/adapter_tracing.rs: `JsonVisitor` and the parts of an entry's source;
--                AdapterTracing/Layer the builder and the hooks of `TracingLayer`
--   Server       examples/mock_server.rs: `handle`, as a decoder of the chunks that it reads;
--                Server/Printing what it prints for an entry, Server/Connections the reads of a
--                connection, its first and last lines, and the accepted connections, Server/Output
--                the text of all lines
--   Examples     examples/: the entries that simple.rs, colors.rs, log_facade.rs and
--                tracing_layer.rs log, one module for each, and the lines that they print
--
-- The worker's function is cut at the places where another thread may come between, and each piece
-- is a step; so is `Client::log`, which pushes its entry under the lock and reports a drop after it. A
-- list of events (an entry pushed, a drop reported, a close, time passing, a step of the worker with
-- the network's answers) is an interleaving, on which `run` computes. The clones of a client and their
-- calls of `close` are a step relation over the same state, and so are the queue's sleepers and
-- notifications over the queue: the state that is reached is one of `run`, for the events, or the
-- queue's calls, that were made on the way.
-- Instants and durations are nanoseconds, and time is an event of its own. The drop counter wraps at
-- 2^64, and a frame's length at 2^32, as in the source. The sum of an instant and a duration panics
-- where the clock cannot represent it: that ends the worker's thread, as returning from it does.
--
-- The only fuel is the decoder's in Server and that of the decimal digits in Base: each frame takes
-- five bytes or more, so the length of the buffer and one more is enough, and a number has no more
-- digits than its successor counts. The depth in Client/Nested is no fuel of that kind: it is the room
-- on the stack, which the program can use up as well.
--
-- Parameters: what serde_json makes of an entry's object (`to_writer`), the system's answers to
-- resolving, dialling and writing (`Network`, `WriteOutcome`), the text of its errors, whether it
-- starts the thread, the last instant of its clock, the time that a dial takes, what the server's
-- reads give, what `{:?}` makes of the lossy decoding of bytes, and the interfaces of Crates with
-- the laws that are documented of them: the level filters (`Filters`) and the global logger
-- (`Facade`) of the `log` and `tracing` crates, the values and maps of serde_json (`Json`) and its
-- reader (`JsonReader`), and the span registry (`Registry`). Of a write it is assumed that
-- `write_all` fails only while bytes are left to write. What the macros of `log` and `tracing` pass
-- on in the examples is as those crates document it.
--
-- Not modelled: the socket's options; a panic of the callback, and a callback that closes its own
-- client; the interval at which a waiting `pop` looks up, beside that it may; `Log::flush`, which
-- drops what `Client::flush` answers; binding the mock server's listener; src/lib.rs, which only
-- declares modules.
pub mod Base
pub mod Priority
pub mod Record
pub mod Timestamp
pub mod Proto
pub mod Server
pub mod Error
pub mod Crates
pub mod Queue
pub mod Client
pub mod AdapterLog
pub mod AdapterTracing
pub mod Examples
