-- ===== src/Threads/Examples.antt =====
-- Concrete threads and system calls, on which the results about ThreadControls apply.
use stochastic_scheduler_con.Prelude.{
  ℕ, ◌≡◌, refl, true, false, some, List, [], ◌∷◌, ◌++◌, arith, Bytes, codes, Option, none, ◌⊎◌,
}
use stochastic_scheduler_con.Prelude.Outcome.{ok}
use stochastic_scheduler_con.Manifest.{default_relation, is_incomplete}
use stochastic_scheduler_con.Threads.{
  Scheduler, Wait, new_thread, thread_sched_yield, released, stop_thread, is_stopped,
}
use stochastic_scheduler_con.Threads.Turns.{yield_turn, turns, queue}
use stochastic_scheduler_con.Threads.Signals as Signals
use stochastic_scheduler_con.Threads.Signals.{
  run_keeps_idxs, run-new_thread, stop_thread_lem, notified, Call, notifies, pops, stops, IsSound,
  call, new_thread-IsSound,
}
use stochastic_scheduler_con.Threads.Pipes.{
  wrote, nothing, eof, bytes, interrupted, write_params_to_subprocess, params_of, write_loop,
}
use stochastic_scheduler_con.Threads.Results.{thread_continue-answer}
use stochastic_scheduler_con.Threads.Machine.{
  System, Process, thread_continue, delivered, timeout, thread_continue-IsStep, IsStep,
}

abbrev three_threads : List ℕ
three_threads = 0 ∷ 1 ∷ 2 ∷ []

abbrev scheduler : Scheduler
scheduler = queue three_threads (λ h. false) 0

yield_turn_example :
    let (s', w) = thread_sched_yield 10 false scheduler in
    let s'' = turns 20 2 s' in
    let wait : Wait = record { handle = 0; until = false } in
    (w ≡ some wait)
    × (s''.sched_handles ≡ three_threads)
    × (released wait s'' ≡ false)
    × (released wait (turns 20 1 s'') ≡ true)
yield_turn_example = yield_turn 10 20 0 (1 ∷ 2 ∷ []) (λ h. false) 0 (omega arith)

abbrev calls : List Call
calls = notifies 3 ∷ notifies 4 ∷ pops ∷ notifies 5 ∷ stops ∷ notifies 6 ∷ []

run_keeps_idxs_example :
    (Signals.run 0 calls (new_thread, scheduler)).1
      ++ (Signals.run 0 calls (new_thread, scheduler)).0.execution_context_idxs
    ≡ [] ++ notified calls
run_keeps_idxs_example = run_keeps_idxs 0 calls new_thread scheduler

is_stopped_calls : is_stopped (Signals.run 0 (stops ∷ []) (new_thread, scheduler)).0 ≡ true
unfolding Signals.run call stop_thread is_stopped
is_stopped_calls = refl

abbrev object_text : List (Bytes × Bytes) → Option Bytes
object_text vs = some (codes "{}")

abbrev sys : System
sys = record {
  fork_exec = ok 100;
  launcher = bytes (codes "r") ∷ [];
  pause = delivered;
  resume = delivered;
  params = codes "{}";
  object_text = object_text;
  writes = nothing ∷ wrote 1 ∷ wrote 2 ∷ [];
  polls = timeout ∷ [];
  reads = interrupted ∷ bytes (codes "4") ∷ bytes (codes "2") ∷ eof ∷ [];
  closes = true;
}

abbrev process : ℕ → Process
process state = record {
  thread = record new_thread { state = state };
  relation = 0;
  cell = λ p. default_relation;
  pipe = [];
}

thread_continue-IsStep_example : IsStep (process 4) (thread_continue sys (process 4)).0
thread_continue-IsStep_example = thread_continue-IsStep sys (process 4)

thread_continue-answer_example :
    let (q, done) = thread_continue sys (process 6) in
    (done ≡ ok true)
    × (q.thread.state ≡ 7)
    × (((is_incomplete (codes "42") ≡ true) × (q.cell ≡ (process 6).cell))
        ⊎ ((is_incomplete (codes "42") ≡ false)
            × ((q.cell 0).value ≡ codes "42")
            × (q.cell 1 ≡ default_relation)))
thread_continue-answer_example =
    thread_continue-answer sys (process 6) (none ∷ some (codes "4") ∷ some (codes "2") ∷ []) [] 1
      refl refl (omega arith)

writes_line :
    write_params_to_subprocess object_text (process 4).cell 0 (codes "{}") [] sys.writes
    ≡ ok (true, codes "{}\n")
unfolding write_params_to_subprocess params_of write_loop
writes_line = refl
