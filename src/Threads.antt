-- ===== src/Threads.antt =====
-- ThreadControls of controller/app: the scheduling of threads in turns, the signals and indices
-- of one thread, and the state machine that drives its subprocess. Mutexes guard single calls:
-- each function is one critical section. System calls are arguments: the results that they give.
mod Examples
pub mod Turns
pub mod Signals
pub mod Pipes
pub mod Machine
pub mod Results
use stochastic_scheduler_con.Prelude.{
  ℕ, zero, suc, ◌+◌, ◌*◌, ◌/◌, ◌%◌, ◌≡◌, Bool, true, false, not, Option, none, some, List, [], ◌∷◌,
  ◌++◌, ◌==◌, if◌then◌else◌, length,
}
use stochastic_scheduler_con.Prelude.Outcome.{Outcome, ok, thrown}

-- ThreadControls::sched_handles_, front first, with the flags of the handles by their address,
-- and the time of start_timer_.
pub record Scheduler : Type 0 where
  pub sched_handles : List ℕ
  pub flag : ℕ → Bool
  pub start_timer : ℕ

-- THREAD_SCHED_TIME_SLICE_MS
abbrev pub time_slice : ℕ
time_slice = 5

-- thread_sched_time_slice(), in milliseconds.
unfoldable pub thread_sched_time_slice : Scheduler → Outcome ℕ
thread_sched_time_slice s = elim s.sched_handles [
  | [] ↦ thrown
  | h ∷ hs ↦ ok (time_slice / length (h ∷ hs))
]

abbrev pub set_flag : (ℕ → Bool) → ℕ → Bool → ℕ → Bool
set_flag flag h b k = if h == k then b else flag k

-- thread_sched_push(); the handle is the address that make_shared gives.
unfoldable pub thread_sched_push : ℕ → Scheduler → Scheduler
thread_sched_push handle s = record s {
  sched_handles = handle ∷ s.sched_handles;
  flag = set_flag s.flag handle false;
}

-- What a call of thread_sched_yield waits for: the flag of a handle is to have a value again.
pub record Wait : Type 0 where
  pub handle : ℕ
  pub until : Bool

-- thread_sched_yield(finished) at a time, up to the wait on the condition variable.
unfoldable pub thread_sched_yield : ℕ → Bool → Scheduler → Scheduler × Option Wait
thread_sched_yield now finished s = elim s.sched_handles [
  | [] ↦ (s, none)
  | handle ∷ rest ↦ elim finished [
    | true ↦ (
      record {
        sched_handles = rest;
        flag = set_flag s.flag handle (not (s.flag handle));
        start_timer = now;
      },
      none,
    )
    | false ↦ (
      record {
        sched_handles = rest ++ handle ∷ [];
        flag = set_flag s.flag handle (not (s.flag handle));
        start_timer = now;
      },
      some (record { handle = handle; until = s.flag handle }),
    )
  ]
]

-- The predicate of the condition variable.
unfoldable pub released : Wait → Scheduler → Bool
released w s = if s.flag w.handle then w.until else not w.until

-- One thread: its signal bits, the indices that wait for it, and the state of its subprocess.
pub record ThreadControls : Type 0 where
  pub signal : ℕ
  pub state : ℕ
  pub execution_context_idxs : List ℕ
  pub pid : ℕ

-- ThreadControls()
abbrev pub new_thread : ThreadControls
new_thread = record { signal = 0; state = 0; execution_context_idxs = []; pid = 0 }

abbrev pub start_event : ℕ
start_event = 2

abbrev pub end_event : ℕ
end_event = 4

-- (signal & bit) != 0, and signal | bit, for a bit that is a power of two.
abbrev pub has_bit : ℕ → ℕ → Bool
has_bit signal bit = not (signal / bit % 2 == 0)

abbrev pub set_bit : ℕ → ℕ → ℕ
set_bit signal bit = if signal / bit % 2 == 0 then signal + bit else signal

unfoldable pub is_started : ThreadControls → Bool
is_started t = has_bit t.signal start_event

unfoldable pub is_stopped : ThreadControls → Bool
is_stopped t = has_bit t.signal end_event

unfoldable pub has_pending_idxs : ThreadControls → Bool
has_pending_idxs t = not (length t.execution_context_idxs == 0)

unfoldable pub pop_idxs : ThreadControls → ThreadControls × List ℕ
pop_idxs t = (record t { execution_context_idxs = [] }, t.execution_context_idxs)

-- notify(idx); the caller waits as thread_sched_yield(false) does.
unfoldable pub notify :
    ℕ → ℕ → ThreadControls × Scheduler → (ThreadControls × Scheduler) × Option Wait
unfolding thread_sched_yield
notify now idx (t, s) =
    let (s', w) = thread_sched_yield now false s in
    (
      (
        record t {
          execution_context_idxs = t.execution_context_idxs ++ idx ∷ [];
          signal = set_bit t.signal start_event;
        },
        s',
      ),
      w,
    )

-- stop_thread()
unfoldable pub stop_thread : ThreadControls → ThreadControls × List ℕ
unfolding is_stopped
stop_thread t = (
  record t {
    execution_context_idxs = [];
    signal =
        if not (is_stopped t) then set_bit (set_bit t.signal start_event) end_event else t.signal;
  },
  t.execution_context_idxs,
)
