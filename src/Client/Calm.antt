-- ===== src/Client/Calm.antt =====
-- src/client.rs: the steps of the worker that move on without an entry and without a byte.
use ecapplog_rust.Base.{◌≡◌, [], true, false, Bool, arith}
use ecapplog_rust.Queue.{pop_from}
use ecapplog_rust.Client.{Config}
use ecapplog_rust.Client.Worker.{
  Pc, reconnect, connecting, checking, popping, pausing, done, World, Outcome, at_reconnect,
  at_checking, at_pausing, after_pop,
}

-- The entries and the bytes are where they were.
pub record Calm (w u : World) : Type 0 where
  pub queue_kept : u.queue ≡ w.queue
  pub written_kept : u.written ≡ w.written
  pub logged_kept : u.logged ≡ w.logged
  pub streams_kept : u.streams ≡ w.streams

-- Places at which the worker has neither an entry nor a connection that it goes on to use.
abbrev pub is_resting : Pc → Bool
is_resting reconnect = true
is_resting connecting = true
is_resting pausing = true
is_resting done = true
is_resting _ = false

-- Places of the inner loop at which the worker has no entry, and its end.
abbrev pub is_serving : Pc → Bool
is_serving checking = true
is_serving popping = true
is_serving done = true
is_serving _ = false

module _ (c : Config) (w : World) where
  pub at_reconnect-Calm :
      (o : Outcome) → Calm w (at_reconnect c o w) × (is_resting (at_reconnect c o w).pc ≡ true)
  unfolding at_reconnect
  at_reconnect-Calm o = ground arith

  pub at_checking-Calm :
      (o : Outcome) → Calm w (at_checking c o w) × (is_serving (at_checking c o w).pc ≡ true)
  unfolding at_checking
  at_checking-Calm o = ground arith

  pub at_pausing-Calm : Calm w (at_pausing w) × (is_resting (at_pausing w).pc ≡ true)
  unfolding at_pausing
  at_pausing-Calm = ground arith

  pub pop_nothing-Calm :
      let u = after_pop w (pop_from w.queue []) in Calm w u × (is_serving u.pc ≡ true)
  unfolding after_pop pop_from
  pop_nothing-Calm = ground arith
