-- ===== src/Threads/Machine.antt =====
-- ThreadControls::thread_continue: the state machine of a subprocess.
use stochastic_scheduler_con.Prelude.{
  ℕ, zero, suc, ◌+◌, ◌<◌, ◌≤◌, ◌≡◌, ◌≢◌, ◌⊎◌, inl, inr, refl, Bool, true, false, Option, List, [],
  ◌∷◌, arith, if◌then◌else◌, Bytes,
}
use stochastic_scheduler_con.Prelude.Outcome.{Outcome, ok, thrown, fault, out_of_fuel}
use stochastic_scheduler_con.Manifest.{Cells}
use stochastic_scheduler_con.Threads.{ThreadControls}
use stochastic_scheduler_con.Threads.Pipes.{
  ReadResult, WriteResult, wait_for_launcher, read_result_from_subprocess,
  write_params_to_subprocess,
}

-- What kill() gives: success, ESRCH, or another error.
pub data KillResult : Type 0 where
  delivered no_process failed : KillResult

-- subprocess_pause and subprocess_continue; the signals differ.
unfoldable pub signal_subprocess : KillResult → Outcome Bool
signal_subprocess delivered = ok true
signal_subprocess no_process = ok false
signal_subprocess failed = thrown

-- What poll() gives: EINTR, another error, a timeout, or events with whether POLLIN or POLLHUP is
-- among them.
pub data PollResult : Type 0 where
  interrupted failed timeout : PollResult
  events : Bool → PollResult

-- wait_for_result_from_subprocess, with the state that it may advance.
unfoldable pub wait_for_result : ℕ → List PollResult → ℕ × Outcome Bool
wait_for_result state [] = (state, out_of_fuel)
wait_for_result state (interrupted ∷ rs) = wait_for_result state rs
wait_for_result state (failed ∷ rs) = (state, thrown)
wait_for_result state (timeout ∷ rs) = (state, ok true)
wait_for_result state (events true ∷ rs) = (state + 1, ok true)
wait_for_result state (events false ∷ rs) = (state, ok false)

-- The results of the system calls of one call of thread_continue, and what boost::json makes of
-- parameters.
pub record System : Type 0 where
  pub fork_exec : Outcome ℕ
  pub launcher : List ReadResult
  pub pause : KillResult
  pub resume : KillResult
  pub params : Bytes
  pub object_text : List (Bytes × Bytes) → Option Bytes
  pub writes : List WriteResult
  pub polls : List PollResult
  pub reads : List ReadResult
  pub closes : Bool

-- The thread with its relation, the heap, and what the subprocess has to read.
pub record Process : Type 0 where
  pub thread : ThreadControls
  pub relation : ℕ
  pub cell : Cells
  pub pipe : Bytes

abbrev pub advance : Process → Process
advance p = record p { thread = record p.thread { state = p.thread.state + 1 } }

started : Process → Outcome ℕ → Process × Outcome Bool
started p (ok pid) = (record p { thread = record p.thread { pid = pid } }, ok true)
started p thrown = (p, thrown)
started p fault = (p, fault)
started p out_of_fuel = (p, out_of_fuel)

written : Process → Outcome (Bool × Bytes) → Process × Outcome Bool
written p (ok (done, pipe)) = (record p { pipe = pipe }, ok done)
written p thrown = (p, thrown)
written p fault = (p, fault)
written p out_of_fuel = (p, out_of_fuel)

unfoldable pub finished : Process → Outcome (Bool × Cells) → Process × Outcome Bool
finished p (ok (done, cell)) = (record p { cell = cell }, ok done)
finished p thrown = (p, thrown)
finished p fault = (p, fault)
finished p out_of_fuel = (p, out_of_fuel)

-- close_pipe
closed : Bool → Outcome Bool
closed closes = if closes then ok false else thrown

-- thread_continue()
unfoldable pub continue_at : ℕ → System → Process → Process × Outcome Bool
unfolding started written finished closed
continue_at zero sys p = started (advance p) sys.fork_exec
continue_at (suc zero) sys p = (advance p, wait_for_launcher sys.launcher)
continue_at (suc (suc zero)) sys p = (advance p, signal_subprocess sys.pause)
continue_at (suc (suc (suc zero))) sys p = (advance p, signal_subprocess sys.resume)
continue_at (suc (suc (suc (suc zero)))) sys p =
    written (advance p)
      (write_params_to_subprocess sys.object_text p.cell p.relation sys.params p.pipe sys.writes)
continue_at (suc (suc (suc (suc (suc zero))))) sys p =
    let (state, result) = wait_for_result p.thread.state sys.polls in
    (record p { thread = record p.thread { state = state } }, result)
continue_at (suc (suc (suc (suc (suc (suc zero)))))) sys p =
    finished (advance p) (read_result_from_subprocess p.cell p.relation sys.reads)
continue_at (suc (suc (suc (suc (suc (suc (suc n))))))) sys p = (p, closed sys.closes)

unfoldable pub thread_continue : System → Process → Process × Outcome Bool
unfolding continue_at
thread_continue sys p = continue_at p.thread.state sys p

wait_for_result_lem :
    (state : ℕ) (rs : List PollResult)
    → ((wait_for_result state rs).0 ≡ state) ⊎ ((wait_for_result state rs).0 ≡ state + 1)
unfolding wait_for_result
wait_for_result_lem state [] = inl refl
wait_for_result_lem state (interrupted ∷ rs) = wait_for_result_lem state rs
wait_for_result_lem state (failed ∷ rs) = inl refl
wait_for_result_lem state (timeout ∷ rs) = inl refl
wait_for_result_lem state (events true ∷ rs) = inr refl
wait_for_result_lem state (events false ∷ rs) = inl refl

-- What one call may do: it advances the state by one below the last, except that it may stay
-- where it waits for the result; it writes to the pipe in state 4 only and stores a value in
-- state 6 only.
pub record IsStep (p q : Process) : Type 0 where
  pub advances :
      (q.thread.state ≡ p.thread.state + 1)
      ⊎ (((p.thread.state ≡ 5) ⊎ (7 ≤ p.thread.state)) × (q.thread.state ≡ p.thread.state))
  pub bounded : p.thread.state ≤ 7 → q.thread.state ≤ 7
  pub same_pipe : p.thread.state ≢ 4 → q.pipe ≡ p.pipe
  pub same_cell : p.thread.state ≢ 6 → q.cell ≡ p.cell
  pub same_thread :
      (q.relation ≡ p.relation)
      × (q.thread.signal ≡ p.thread.signal)
      × (q.thread.execution_context_idxs ≡ p.thread.execution_context_idxs)

-- The last part of a call, by what it leaves as it is.
abbrev SameThread : Process → Process → Type 0
SameThread p q =
    (q.thread.state ≡ p.thread.state)
    × (q.relation ≡ p.relation)
    × (q.thread.signal ≡ p.thread.signal)
    × (q.thread.execution_context_idxs ≡ p.thread.execution_context_idxs)

started_lem :
    (p : Process) (o : Outcome ℕ)
    → SameThread p (started p o).0
      × ((started p o).0.pipe ≡ p.pipe)
      × ((started p o).0.cell ≡ p.cell)
unfolding started
started_lem p (ok pid) = ((refl, refl, refl, refl), refl, refl)
started_lem p thrown = ((refl, refl, refl, refl), refl, refl)
started_lem p fault = ((refl, refl, refl, refl), refl, refl)
started_lem p out_of_fuel = ((refl, refl, refl, refl), refl, refl)

written_lem :
    (p : Process) (o : Outcome (Bool × Bytes))
    → SameThread p (written p o).0 × ((written p o).0.cell ≡ p.cell)
unfolding written
written_lem p (ok (done, pipe)) = ((refl, refl, refl, refl), refl)
written_lem p thrown = ((refl, refl, refl, refl), refl)
written_lem p fault = ((refl, refl, refl, refl), refl)
written_lem p out_of_fuel = ((refl, refl, refl, refl), refl)

finished_lem :
    (p : Process) (o : Outcome (Bool × Cells))
    → SameThread p (finished p o).0 × ((finished p o).0.pipe ≡ p.pipe)
unfolding finished
finished_lem p (ok (done, cell)) = ((refl, refl, refl, refl), refl)
finished_lem p thrown = ((refl, refl, refl, refl), refl)
finished_lem p fault = ((refl, refl, refl, refl), refl)
finished_lem p out_of_fuel = ((refl, refl, refl, refl), refl)

-- The process that only advances.
advance-IsStep : (p : Process) → p.thread.state < 7 → IsStep p (advance p)
advance-IsStep p h = record {
  advances = inl refl;
  bounded = λ l. omega (arith, h);
  same_pipe = λ n. refl;
  same_cell = λ n. refl;
  same_thread = (refl, refl, refl);
}

continue_at_lem :
    (n : ℕ) (sys : System) (p : Process) → p.thread.state ≡ n → IsStep p (continue_at n sys p).0
continue_at_lem zero sys p e =
    let (s, pipe, cell) = started_lem (advance p) sys.fork_exec in
    unfold continue_at in
    record {
      advances = inl s.0;
      bounded = λ l. omega (arith, s.0, e);
      same_pipe = λ n. pipe;
      same_cell = λ n. cell;
      same_thread = (s.1, s.2, s.3);
    }
continue_at_lem (suc zero) sys p e = unfold continue_at in advance-IsStep p (omega arith)
continue_at_lem (suc (suc zero)) sys p e = unfold continue_at in advance-IsStep p (omega arith)
continue_at_lem (suc (suc (suc zero))) sys p e =
    unfold continue_at in advance-IsStep p (omega arith)
continue_at_lem (suc (suc (suc (suc zero)))) sys p e =
    let (s, cell) =
      written_lem (advance p) (
        write_params_to_subprocess sys.object_text p.cell p.relation sys.params p.pipe
          sys.writes) in
    unfold continue_at in
    record {
      advances = inl s.0;
      bounded = λ l. omega (arith, s.0, e);
      same_pipe = λ n. absurd (n e);
      same_cell = λ n. cell;
      same_thread = (s.1, s.2, s.3);
    }
continue_at_lem (suc (suc (suc (suc (suc zero))))) sys p e =
    let w = wait_for_result_lem p.thread.state sys.polls in
    unfold continue_at in
    record {
      advances = elim w [ inl a ↦ inr (inl e, a) | inr b ↦ inl b ];
      bounded = λ l. elim w [ inl a ↦ omega (arith, a) | inr b ↦ omega (arith, b) ];
      same_pipe = λ n. refl;
      same_cell = λ n. refl;
      same_thread = (refl, refl, refl);
    }
continue_at_lem (suc (suc (suc (suc (suc (suc zero)))))) sys p e =
    let (s, pipe) =
      finished_lem (advance p) (read_result_from_subprocess p.cell p.relation sys.reads) in
    unfold continue_at in
    record {
      advances = inl s.0;
      bounded = λ l. omega (arith, s.0, e);
      same_pipe = λ n. pipe;
      same_cell = λ n. absurd (n e);
      same_thread = (s.1, s.2, s.3);
    }
continue_at_lem (suc (suc (suc (suc (suc (suc (suc n))))))) sys p e =
    unfold continue_at in
    record {
      advances = inr (inr (omega arith), refl);
      bounded = λ l. l;
      same_pipe = λ k. refl;
      same_cell = λ k. refl;
      same_thread = (refl, refl, refl);
    }

-- Every call of thread_continue, whatever the system calls give, advances the state by one, or
-- leaves it as it is in state 5 or from state 7 on; a state of at most 7 stays at most 7. It
-- writes to the pipe in state 4 only, stores a value in state 6 only, and leaves the signals and
-- the indices alone.
pub thread_continue-IsStep : (sys : System) (p : Process) → IsStep p (thread_continue sys p).0
unfolding thread_continue
thread_continue-IsStep sys p = continue_at_lem p.thread.state sys p refl
