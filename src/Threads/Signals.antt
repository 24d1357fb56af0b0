-- ===== src/Threads/Signals.antt =====
-- The signals and the pending indices of one thread.
use stochastic_scheduler_con.Prelude.{
  ℕ, ◌<◌, ◌≡◌, refl, sym, ap, ◌∙◌, true, false, List, [], ◌∷◌, ◌++◌, append_assoc, append-nil,
  arith,
}
use stochastic_scheduler_con.Threads.{
  ThreadControls, Scheduler, new_thread, is_started, is_stopped, has_pending_idxs, pop_idxs, notify,
  stop_thread,
}

-- A thread that is stopped has been started.
pub record IsSound (t : ThreadControls) : Type 0 where
  pub started : is_stopped t ≡ true → is_started t ≡ true
  pub word : t.signal < 65536

-- The calls on one thread.
pub data Call : Type 0 where
  notifies : ℕ → Call
  pops stops : Call

unfoldable pub call : ℕ → Call → ThreadControls × Scheduler → (ThreadControls × Scheduler) × List ℕ
unfolding notify pop_idxs stop_thread
call now (notifies idx) (t, s) = ((notify now idx (t, s)).0, [])
call now pops (t, s) = (((pop_idxs t).0, s), (pop_idxs t).1)
call now stops (t, s) = (((stop_thread t).0, s), (stop_thread t).1)

-- A run of calls: the thread after it, and all the indices that it has handed out.
unfoldable pub run : ℕ → List Call → ThreadControls × Scheduler → ThreadControls × List ℕ
run now [] (t, s) = (t, [])
run now (c ∷ cs) (t, s) =
    let (next, out) = call now c (t, s) in let (t', outs) = run now cs next in (t', out ++ outs)

-- The indices that a run of calls is notified of.
pub notified : List Call → List ℕ
notified [] = []
notified (notifies idx ∷ cs) = idx ∷ notified cs
notified (pops ∷ cs) = notified cs
notified (stops ∷ cs) = notified cs

-- Whatever the calls, what they hand out and what is still pending is what was pending before
-- and what the thread was notified of, in that order: no index is lost or handed out twice.
pub run_keeps_idxs :
    (now : ℕ) (cs : List Call) (t : ThreadControls) (s : Scheduler)
    → (run now cs (t, s)).1 ++ (run now cs (t, s)).0.execution_context_idxs
      ≡ t.execution_context_idxs ++ notified cs
unfolding run call notify pop_idxs stop_thread notified
run_keeps_idxs now [] t s = sym (append-nil t.execution_context_idxs)
run_keeps_idxs now (notifies idx ∷ cs) t s =
    run_keeps_idxs now cs (notify now idx (t, s)).0.0 (notify now idx (t, s)).0.1
    ∙ append_assoc t.execution_context_idxs (idx ∷ []) (notified cs)
run_keeps_idxs now (pops ∷ cs) t s =
    append_assoc t.execution_context_idxs _ _
    ∙ ap (◌++◌ t.execution_context_idxs) (run_keeps_idxs now cs (pop_idxs t).0 s)
run_keeps_idxs now (stops ∷ cs) t s =
    append_assoc t.execution_context_idxs _ _
    ∙ ap (◌++◌ t.execution_context_idxs) (run_keeps_idxs now cs (stop_thread t).0 s)

call-IsSound :
    (now : ℕ) (c : Call) (t : ThreadControls) (s : Scheduler)
    → IsSound t
    → IsSound (call now c (t, s)).0.0
unfolding call is_started is_stopped
call-IsSound now (notifies idx) t s v = record { started = λ h. ground arith; word = ground arith }
call-IsSound now pops t s v = record { started = v.started; word = v.word }
call-IsSound now stops t s v = record { started = λ h. ground arith; word = ground arith }

run-IsSound :
    (now : ℕ) (cs : List Call) (t : ThreadControls) (s : Scheduler)
    → IsSound t
    → IsSound (run now cs (t, s)).0
unfolding run
run-IsSound now [] t s v = v
run-IsSound now (c ∷ cs) t s v =
    run-IsSound now cs (call now c (t, s)).0.0 (call now c (t, s)).0.1 (call-IsSound now c t s v)

pub new_thread-IsSound : IsSound new_thread
unfolding is_started is_stopped
new_thread-IsSound = record { started = λ h. cc h; word = omega arith }

-- A new thread, after any calls: if it is stopped it has been started, so that it is not left
-- waiting.
pub run-new_thread :
    (now : ℕ) (cs : List Call) (s : Scheduler)
    → is_stopped (run now cs (new_thread, s)).0 ≡ true
    → is_started (run now cs (new_thread, s)).0 ≡ true
run-new_thread now cs s = (run-IsSound now cs new_thread s new_thread-IsSound).started

-- stop_thread of a thread that is sound leaves it stopped, started and with nothing pending, and
-- hands out what was.
pub stop_thread_lem :
    (t : ThreadControls)
    → IsSound t
    → (is_stopped (stop_thread t).0 ≡ true)
      × (is_started (stop_thread t).0 ≡ true)
      × (has_pending_idxs (stop_thread t).0 ≡ false)
      × ((stop_thread t).1 ≡ t.execution_context_idxs)
unfolding stop_thread is_stopped is_started has_pending_idxs
stop_thread_lem t v = (ground (arith, v.started), ground (arith, v.started), refl, refl)
