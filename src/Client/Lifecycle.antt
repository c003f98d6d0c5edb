-- ===== src/Client/Lifecycle.antt =====
-- src/client.rs: `Inner`, its `close` and its `Drop`, and the clones that share it. `close` requests
-- shutdown, takes the handle of the worker's thread under the handle's lock, and joins the thread if
-- the handle was still there; other threads may come between. Any number of calls of `close` may be
-- under way, on clones that are in use meanwhile, and the last clone is dropped when none is.
use ecapplog_rust.Base.{ℕ, ◌+◌, ◌-◌, ◌<◌, ◌≡◌, Bool, true, false, if◌then◌else◌, []}
use ecapplog_rust.Record.{Record}
use ecapplog_rust.Queue.{new}
use ecapplog_rust.Proto.{Object}
use ecapplog_rust.Client.{Config, Serialized}
use ecapplog_rust.Client.Worker.{
  World, Event, logs, tells, closes, ticks, works, Outcome, done, start, step,
}
pub mod Ends

-- The drop of `Inner`: not begun, between the request for shutdown and taking the handle, in the
-- join, or over.
pub data Dropping : Type 0 where
  in_use shutting joining over : Dropping

-- `spawned` is whether the system started the thread, `handle` whether the handle is still there.
-- `to_take` counts the calls of `close` that have requested shutdown and not looked for the handle,
-- and `to_join` those in the join.
pub record Inner : Type 0 where
  pub world : World
  pub spawned : Bool
  pub handle : Bool
  pub clones : ℕ
  pub to_take : ℕ
  pub to_join : ℕ
  pub dropping : Dropping

-- `build`: the handle is there when the thread was started, which may fail.
unfoldable pub built : ℕ → Bool → Inner
built buffer_size spawned = record {
  world = start (new buffer_size);
  spawned = spawned;
  handle = spawned;
  clones = 1;
  to_take = 0;
  to_join = 0;
  dropping = in_use;
}

-- What follows the request for shutdown in a call of `close`: the handle is taken and joined, or the
-- call returns.
unfoldable pub close_takes : Inner → Inner
close_takes l =
    if l.handle
    then record l { handle = false; to_take = l.to_take - 1; to_join = l.to_join + 1 }
    else record l { to_take = l.to_take - 1 }

-- The same in the drop of `Inner`.
unfoldable pub drop_takes : Inner → Inner
drop_takes l =
    if l.handle
    then record l { handle = false; dropping = joining }
    else record l { dropping = over }

module _ (c : Config) (to_writer : Object → Serialized) where
  -- An event of the callers, the clock or the worker.
  unfoldable pub after : Event → Inner → Inner
  after e l = record l { world = step c to_writer l.world e }

  -- A thread that is not started takes no step, and a join returns when the worker is done. A call of
  -- `log` or `close` borrows a clone, so the last one is dropped only when none is under way.
  pub data Step (l : Inner) : Inner → Type 0 where
    clones_it : 0 < l.clones → Step l (record l { clones = l.clones + 1 })
    drops_clone : 1 < l.clones → Step l (record l { clones = l.clones - 1 })
    logs_entry : (r : Record) → 0 < l.clones → Step l (after (logs r) l)
    tells_drop : (k : ℕ) → Step l (after (tells k) l)
    close_begins : 0 < l.clones → Step l (record (after closes l) { to_take = l.to_take + 1 })
    close_goes_on : 0 < l.to_take → Step l (close_takes l)
    close_returns :
        0 < l.to_join → l.world.pc ≡ done → Step l (record l { to_join = l.to_join - 1 })
    drops_last :
        l.clones ≡ 1
        → l.to_take ≡ 0
        → l.to_join ≡ 0
        → l.world.telling ≡ []
        → Step l (record (after closes l) { clones = 0; dropping = shutting })
    drop_goes_on : l.dropping ≡ shutting → Step l (drop_takes l)
    drop_returns : l.dropping ≡ joining → l.world.pc ≡ done → Step l (record l { dropping = over })
    time_passes : (n : ℕ) → Step l (after (ticks n) l)
    worker_works : (o : Outcome) → l.spawned ≡ true → Step l (after (works o) l)

  pub data Reach (buffer_size : ℕ) (spawned : Bool) : Inner → Type 0 where
    begin : Reach buffer_size spawned (built buffer_size spawned)
    next : {l m : Inner} → Reach buffer_size spawned l → Step l m → Reach buffer_size spawned m
