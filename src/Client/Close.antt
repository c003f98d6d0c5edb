-- ===== src/Client/Close.antt =====
-- src/client.rs: a close that is to drain the queue, while the callers and the clock go on.
use ecapplog_rust.Base.{
  ℕ, ◌+◌, ◌≤◌, ◌<◌, ◌≡◌, List, [], ◌∷◌, ◌++◌, Bool, true, false, not, arith, length, ltb, All,
  Option, some, none,
}
use ecapplog_rust.Base.Text.{Text}
use ecapplog_rust.Record.{Record}
use ecapplog_rust.Proto.{Object, max_payload_size, fields, from_record}
use ecapplog_rust.Client.{Config, stream, connect, Serialized, json, complete}
use ecapplog_rust.Client.Worker.{
  Pc, pausing, done, requeueing, settling, World, Event, ticks, works, step,
}
use ecapplog_rust.Client.Invariant.{held}
pub mod Steps
pub mod Drained
pub mod Late
pub mod Overflow

-- The worker is not on its way to a pause.
abbrev pub is_on_course : Pc → Bool
is_on_course pausing = false
is_on_course (settling total) = false
is_on_course (requeueing r) = false
is_on_course _ = true

abbrev pub ticks_of : Event → ℕ
ticks_of (ticks n) = n
ticks_of (works o) = o.lag
ticks_of _ = 0

-- The flush deadline, which is counted from now if it is not set yet.
abbrev pub deadline_of : Config → World → ℕ
deadline_of c w = elim w.flush_deadline [ some d ↦ d | none ↦ w.now + c.flush_timeout ]

-- The deadline is ahead for the time `t`, and one that is set then is an instant up to `limit`.
abbrev pub InTime : Config → ℕ → World → ℕ → Type 0
InTime c limit w t = (w.now + t < deadline_of c w) × (w.now + t + c.flush_timeout ≤ limit)

-- The time that passes, between the readings of the clock too.
abbrev pub elapsed : List Event → ℕ
elapsed [] = 0
elapsed (e ∷ es) = ticks_of e + elapsed es

-- The entries that are left once the worker has ended.
abbrev pub Ended : Pc → List Record → Type 0
Ended done xs = xs ≡ []
Ended p xs = Unit

pub short_enough :
    (b : Text) → length b ≤ max_payload_size → ltb max_payload_size (length b) ≡ false
short_enough b h = ground arith

module _ (c : Config) (to_writer : Object → Serialized) where
  -- The entry becomes JSON within the server's limit.
  abbrev pub Sendable : Record → Type 0
  Sendable r =
      (b : Text) × (to_writer (fields (from_record r)) ≡ json b) × (length b ≤ max_payload_size)

  -- A step of the worker at which a connect is answered, a write succeeds, and the clock can
  -- represent the instants up to `limit`.
  abbrev pub IsGood : ℕ → Event → Type 0
  IsGood limit (works o) =
      (a : ℕ) × ((deadline : Option ℕ) (now : ℕ) → connect c o.network deadline now ≡ stream a)
      × (o.write ≡ complete)
      × (limit ≤ o.latest)
  IsGood limit _ = Unit

  -- All of `goal` is written, held or queued, and can be sent before the deadline, `t` from now.
  pub record Drains (limit : ℕ) (w : World) (p : Pc) (goal : List Record) (t : ℕ) : Type 0 where
    pub down : w.queue.shutdown ≡ true
    pub on_course : is_on_course p ≡ true
    pub left : w.written ++ (held p ++ w.queue.items) ≡ goal
    pub sendable : All Sendable (held p ++ w.queue.items)
    pub time_left : InTime c limit w t
    pub ended : Ended p w.queue.items
