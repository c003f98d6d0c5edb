-- ===== src/Queue/Wakeups.antt =====
-- src/queue.rs: the waits on the condition variables, and the calls that notify them.
use ecapplog_rust.Base.{true, false, ◌≡◌, ◌≢◌, arith, is_nil-append_one}
use ecapplog_rust.Queue.{
  Queue, Call, pushes, push_fronts, pops, finishes, shuts_down, silent, rest_of, call, wakes,
  pop_blocks, flush_blocks, sleep_blocks,
}

-- A call that lets a blocked `pop` go on notifies `work`.
pub wakes-pop :
    (q : Queue) (c : Call)
    → pop_blocks q ≡ true
    → pop_blocks (call q c) ≡ false
    → (wakes q c).work ≢ silent
unfolding pop_blocks call wakes
wakes-pop q (pushes r) h k = ground arith
wakes-pop q (push_fronts r) h k = ground arith
wakes-pop q pops h k = ground arith
wakes-pop q finishes h k = ground arith
wakes-pop q shuts_down h k = ground arith

-- A call that lets a blocked `flush` go on notifies `drained`.
pub wakes-flush :
    (q : Queue) (c : Call)
    → flush_blocks q ≡ true
    → flush_blocks (call q c) ≡ false
    → (wakes q c).drained ≢ silent
unfolding flush_blocks call wakes
wakes-flush q (pushes r) h k =
    ground (arith, is_nil-append_one (rest_of q.items) r, is_nil-append_one q.items r)
wakes-flush q (push_fronts r) h k = ground arith
wakes-flush q pops h k = ground arith
wakes-flush q finishes h k = ground arith
wakes-flush q shuts_down h k = ground arith

-- A call that ends the reason for a reconnect pause notifies `work`.
pub wakes-sleep :
    (q : Queue) (c : Call)
    → sleep_blocks q ≡ true
    → sleep_blocks (call q c) ≡ false
    → (wakes q c).work ≢ silent
unfolding sleep_blocks call wakes
wakes-sleep q (pushes r) h k = ground arith
wakes-sleep q (push_fronts r) h k = ground arith
wakes-sleep q pops h k = ground arith
wakes-sleep q finishes h k = ground arith
wakes-sleep q shuts_down h k = ground arith
