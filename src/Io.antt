-- ===== src/Io.antt =====
-- The queue of messages of controller/io, which the callbacks of the transports fill and the
-- scheduling loop of controller/app empties, and the signal word between the two.
mod Examples
pub mod Queue
pub mod Signal
use stochastic_scheduler_con.Prelude.{
  ℕ, ◌≡◌, Bool, true, false, not, ◌&&◌, ◌||◌, Option, none, some, List, [], ◌∷◌, ◌++◌, leb, length,
  is_empty,
}

-- MAX_QUEUE_LENGTH
abbrev pub max_queue_length : ℕ
max_queue_length = 1024

-- A message, by the address of its box.
abbrev pub Message : Type 0
Message = ℕ

unfoldable pub mq_is_empty : List Message → Bool
mq_is_empty mq = is_empty mq

unfoldable pub mq_is_full : List Message → Bool
mq_is_full mq = leb max_queue_length (length mq)

unfoldable pub mq_pull : List Message → Option Message × List Message
mq_pull [] = (none, [])
mq_pull (head ∷ mq) = (some head, mq)

unfoldable pub mq_push : List Message → Message → List Message
mq_push mq msg = mq ++ msg ∷ []

-- The bits of the signal: CTL_TERMINATE_EVENT, CTL_IO_READ_EVENT,
-- CTL_IO_SCHED_START_EVENT and CTL_IO_SCHED_END_EVENT.
pub record Events : Type 0 where
  pub terminate : Bool
  pub read : Bool
  pub sched_start : Bool
  pub sched_end : Bool

-- fetch_or
unfoldable pub fetch_or : Events → Events → Events
fetch_or s t = record {
  terminate = s.terminate || t.terminate;
  read = s.read || t.read;
  sched_start = s.sched_start || t.sched_start;
  sched_end = s.sched_end || t.sched_end;
}

-- fetch_and(~(t & ~CTL_TERMINATE_EVENT))
unfoldable pub clear_seen : Events → Events → Events
clear_seen s t = record {
  terminate = s.terminate;
  read = s.read && not t.read;
  sched_start = s.sched_start && not t.sched_start;
  sched_end = s.sched_end && not t.sched_end;
}

-- The predicate of the wait at the top of the scheduling loop.
unfoldable pub wakes : List Message → Events → Bool
unfolding mq_is_empty
wakes mq s = not (mq_is_empty mq) || (s.read || (s.sched_start || s.sched_end))

-- The top of the scheduling loop, after the wait: the copy of the signal, the message, and what is
-- left; `meanwhile` is what other threads set between the load and the fetch_and.
unfoldable pub loop_top :
    Events → List Message → Events → (Events × Option Message) × (Events × List Message)
unfolding clear_seen fetch_or mq_pull
loop_top s mq meanwhile =
    ((s, (mq_pull mq).0), (clear_seen (fetch_or s meanwhile) s, (mq_pull mq).1))
