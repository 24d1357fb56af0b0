-- ===== src/Io/Signal.antt =====
-- No event is lost between the transports, the threads and the scheduling loop.
use stochastic_scheduler_con.Prelude.{
  ◌≡◌, refl, Bool, true, false, not, ◌&&◌, ◌||◌, Option, none, some, List, [], ◌∷◌, arith,
}
use stochastic_scheduler_con.Io.{
  Message, Events, fetch_or, clear_seen, mq_is_empty, mq_pull, wakes, loop_top,
}

-- One bit at the top of the scheduling loop: whatever was set, before or meanwhile, is in the copy
-- of the signal or still in the signal, and a bit in both was set.
abbrev pub IsKept : Bool → Bool → Bool → Bool → Type 0
IsKept before meanwhile seen left = (seen || left) ≡ (before || meanwhile)

abbrev pub is_message : Option Message → Bool
is_message none = false
is_message (some msg) = true

bit-IsKept : (b m : Bool) → IsKept b m b ((b || m) && not b)
bit-IsKept b m = ground arith

-- At the top of the scheduling loop no event is lost that was set before the load or between it
-- and the fetch_and: each is seen now or stays in the signal. The bit of termination is never
-- cleared. Where the loop wakes, it sees an event other than termination, or pulls a message.
pub loop_top_lem :
    (s : Events) (mq : List Message) (meanwhile : Events)
    → IsKept s.read meanwhile.read
        (loop_top s mq meanwhile).0.0.read
        (loop_top s mq meanwhile).1.0.read
      × IsKept s.sched_start meanwhile.sched_start
          (loop_top s mq meanwhile).0.0.sched_start
          (loop_top s mq meanwhile).1.0.sched_start
      × IsKept s.sched_end meanwhile.sched_end
          (loop_top s mq meanwhile).0.0.sched_end
          (loop_top s mq meanwhile).1.0.sched_end
      × ((loop_top s mq meanwhile).1.0.terminate ≡ (s.terminate || meanwhile.terminate))
      × (wakes mq s ≡ (
          ((loop_top s mq meanwhile).0.0.read
            || ((loop_top s mq meanwhile).0.0.sched_start
                || (loop_top s mq meanwhile).0.0.sched_end))
          || is_message (loop_top s mq meanwhile).0.1))
unfolding loop_top clear_seen fetch_or wakes mq_is_empty mq_pull
loop_top_lem s [] meanwhile = (
  bit-IsKept s.read meanwhile.read,
  bit-IsKept s.sched_start meanwhile.sched_start,
  bit-IsKept s.sched_end meanwhile.sched_end,
  refl,
  ground arith,
)
loop_top_lem s (msg ∷ mq) meanwhile = (
  bit-IsKept s.read meanwhile.read,
  bit-IsKept s.sched_start meanwhile.sched_start,
  bit-IsKept s.sched_end meanwhile.sched_end,
  refl,
  ground arith,
)
