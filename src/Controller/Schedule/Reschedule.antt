-- ===== src/Controller/Schedule/Reschedule.antt =====
-- reschedule_actions: every index of the stopped thread goes to a ready action, or all threads of
-- the context are stopped.
use stochastic_scheduler_con.Prelude.{
  ℕ, zero, suc, ◌+◌, ◌%◌, ◌<◌, ◌≤◌, ◌≡◌, refl, ap, ◌∙◌, true, false, Option, none, some, List, [],
  ◌∷◌, map, arith, length, get_elem?, set, is_empty, Bytes, All,
}
use stochastic_scheduler_con.Prelude.Outcome.{ok}
use stochastic_scheduler_con.Manifest.{ActionManifest, find, next, any_incomplete}
use stochastic_scheduler_con.Manifest.Index.{get_elem?_of_lt, get_elem?-lt}
use stochastic_scheduler_con.Manifest.Next.{next_done}
use stochastic_scheduler_con.Threads.{
  ThreadControls, is_stopped, has_pending_idxs, notify, stop_thread, set_bit, end_event,
}
use stochastic_scheduler_con.Controller.Schedule.{
  Context, start_key, notify_at, stop_all, reschedule_to, reschedule_one, reschedule_loop,
  reschedule_actions,
}
use stochastic_scheduler_con.Controller.Schedule.Ready.{
  IsSchedule, next-IsReady_lem, Handed, nothing, hands, pending, length-set, pending-set,
  Handed-pending, incomplete_action,
}

-- The context after a call of notify for the thread at a position.
abbrev pub notified_at : ℕ → ℕ → ℕ → ThreadControls → Context → Context
notified_at now j idx t c = record c {
  thread_controls = set c.thread_controls j (notify now idx (t, c.scheduler)).0.0;
  scheduler = (notify now idx (t, c.scheduler)).0.1;
}

pub notify_at_lem :
    (now j idx : ℕ) (t : ThreadControls) (c : Context)
    → get_elem? c.thread_controls j ≡ some t
    → notify_at now j idx c ≡ ok (notified_at now j idx t c)
unfolding notify_at
notify_at_lem now j idx t c h = rw (h, notify_at) refl

pub notified-IsSchedule :
    (bound now j idx : ℕ) (t : ThreadControls) (c : Context)
    → IsSchedule bound c
    → IsSchedule bound (notified_at now j idx t c)
notified-IsSchedule bound now j idx t c s = record {
  well_formed = s.well_formed;
  named = s.named;
  low = s.low;
  settled = s.settled;
  same_length =
      length-set c.thread_controls j (notify now idx (t, c.scheduler)).0.0 ∙ s.same_length;
}

reschedule_to_hands :
    (now i r j : ℕ) (t : ThreadControls) (c : Context)
    → is_empty (c.manifest.cell r).key ≡ false
    → find c.manifest.cell (c.manifest.cell r).key c.manifest.index 0 ≡ some (j, r)
    → get_elem? c.thread_controls j ≡ some t
    → reschedule_to now i c (some r) ≡ ok (notified_at now j i t c, false)
unfolding reschedule_to start_key
reschedule_to_hands now i r j t c e f g =
    rw (e, reschedule_to) (rw f (rw (notify_at_lem now j i t c g) refl))

reschedule_to_stops :
    (now i : ℕ) (c : Context) → reschedule_to now i c none ≡ ok (stop_all now c, true)
unfolding reschedule_to start_key
reschedule_to_stops now i c = refl

one_lem :
    (fuel now i p : ℕ) (c : Context) (start : Option ℕ)
    → get_elem? c.manifest.index (i % length c.manifest.index) ≡ some p
    → next fuel c.manifest (c.manifest.cell p).key i ≡ ok start
    → reschedule_one fuel now i c ≡ reschedule_to now i c start
unfolding reschedule_one
one_lem fuel now i p c start a b = rw (a, reschedule_one) (rw b refl)

loop_step :
    (fuel now i : ℕ) (is : List ℕ) (c c' : Context)
    → reschedule_one fuel now i c ≡ ok (c', false)
    → reschedule_loop fuel now (i ∷ is) c ≡ reschedule_loop fuel now is c'
unfolding reschedule_loop
loop_step fuel now i is c c' h = rw (h, reschedule_loop) refl

loop_stop :
    (fuel now i : ℕ) (is : List ℕ) (c c' : Context)
    → reschedule_one fuel now i c ≡ ok (c', true)
    → reschedule_loop fuel now (i ∷ is) c ≡ ok (c', true)
unfolding reschedule_loop
loop_stop fuel now i is c c' h = rw (h, reschedule_loop) refl

-- The relation that an index starts from.
start_of :
    (m : ActionManifest) (i : ℕ)
    → 0 < length m.index
    → (p : ℕ) × (get_elem? m.index (i % length m.index) ≡ some p)
start_of m i h = get_elem?_of_lt m.index (i % length m.index) (omega (arith, h))

nonempty_of_incomplete :
    (m : ActionManifest) → any_incomplete m.cell m.index ≡ true → 0 < length m.index
nonempty_of_incomplete m h =
    let (j, q, a, _) = incomplete_action m.cell m.index h in
    omega (arith, get_elem?-lt m.index j q a)

loop_lem :
    (bound fuel now : ℕ) (is : List ℕ) (c : Context)
    → IsSchedule bound c
    → any_incomplete c.manifest.cell c.manifest.index ≡ true
    → length c.manifest.index + bound ≤ fuel
    → (c' : Context) × (reschedule_loop fuel now is c ≡ ok (c', false))
      × Handed c.manifest is c.thread_controls c'.thread_controls
      × (c'.manifest ≡ c.manifest)
      × (c'.sched_signal ≡ c.sched_signal)
loop_lem bound fuel now [] c s a l = (c, unfold reschedule_loop in refl, nothing, refl, refl)
loop_lem bound fuel now (i ∷ is) c s a l =
    let (p, h) = start_of c.manifest i (nonempty_of_incomplete c.manifest a) in
    let (r, j, t, b, ready, at, f, g) =
      next-IsReady_lem bound fuel c (i % length c.manifest.index) p i s a l h in
    let c₁ = notified_at now j i t c in
    let (c', e, handed, k, w) =
      loop_lem bound fuel now is c₁ (notified-IsSchedule bound now j i t c s) a l in
    (
      c',
      loop_step fuel now i is c c₁ (
            one_lem fuel now i p c (some r) h b
            ∙ reschedule_to_hands now i r j t c (s.named j r at) f g)
          ∙ e,
      hands now i j r t c.scheduler ready at g handed,
      k,
      w,
    )

pub next_complete :
    (fuel : ℕ) (m : ActionManifest) (key : Bytes) (idx : ℕ)
    → 0 < fuel
    → any_incomplete m.cell m.index ≡ false
    → next fuel m key idx ≡ ok none
next_complete zero m key idx l a = absurd (omega (arith, l))
next_complete (suc fuel) m key idx l a = next_done fuel m key idx a

length-map_stop : (ts : List ThreadControls) → length (map (λ t. (stop_thread t).0) ts) ≡ length ts
length-map_stop [] = refl
length-map_stop (t ∷ ts) = ap suc (length-map_stop ts)

-- A thread that is left alone: stopped, with nothing pending.
abbrev pub IsIdle : ThreadControls → Type 0
IsIdle t = (is_stopped t ≡ true) × (has_pending_idxs t ≡ false)

stop_thread-IsIdle : (t : ThreadControls) → IsIdle (stop_thread t).0
unfolding stop_thread is_stopped has_pending_idxs
stop_thread-IsIdle t = (ground arith, refl)

All-stop : (ts : List ThreadControls) → All IsIdle (map (λ t. (stop_thread t).0) ts)
All-stop [] = tt
All-stop (t ∷ ts) = (stop_thread-IsIdle t, All-stop ts)

module _ (bound fuel now position : ℕ) (c : Context) (thread : ThreadControls)
    (s : IsSchedule bound c) (enough : length c.manifest.index + bound ≤ fuel)
    (here : get_elem? c.thread_controls position ≡ some thread) where
  -- The context after the first two lines.
  abbrev pub begun : Context
  begun = record c {
    thread_controls = set c.thread_controls position (stop_thread thread).0;
    sched_signal = set_bit c.sched_signal end_event;
  }

  begun-IsSchedule : IsSchedule bound begun
  begun-IsSchedule = record {
    well_formed = s.well_formed;
    named = s.named;
    low = s.low;
    settled = s.settled;
    same_length = length-set c.thread_controls position (stop_thread thread).0 ∙ s.same_length;
  }

  pub reschedule_begins :
      reschedule_actions fuel now position c ≡ reschedule_loop fuel now (stop_thread thread).1 begun
  unfolding reschedule_actions
  reschedule_begins = rw (here, reschedule_actions) refl

  stop_thread_pending :
      length (stop_thread thread).0.execution_context_idxs + length (stop_thread thread).1
      ≡ length thread.execution_context_idxs
  unfolding stop_thread
  stop_thread_pending = omega arith

  -- In a well-formed context with a thread for each named action and no value "null", while an
  -- action is incomplete, reschedule_actions returns, on enough fuel for next, with the manifest
  -- as it was: it has stopped the thread, and handed every index that was
  -- pending there to the thread of an action that has no value and whose dependencies have one; as
  -- many indices are pending in the context as before.
  pub reschedule_actions-hands :
      any_incomplete c.manifest.cell c.manifest.index ≡ true
      → (c' : Context) × (reschedule_actions fuel now position c ≡ ok (c', false))
        × Handed c.manifest
            (stop_thread thread).1
            (set c.thread_controls position (stop_thread thread).0)
            c'.thread_controls
        × (pending c'.thread_controls ≡ pending c.thread_controls)
        × (c'.manifest ≡ c.manifest)
        × (c'.sched_signal ≡ set_bit c.sched_signal end_event)
  reschedule_actions-hands a =
      let (c', e, handed, k, w) =
        loop_lem bound fuel now (stop_thread thread).1 begun begun-IsSchedule a enough in
      let kept : pending c'.thread_controls ≡ pending c.thread_controls = omega (
        arith,
        (Handed-pending handed).0,
        stop_thread_pending,
        pending-set c.thread_controls position thread (stop_thread thread).0 here,
      ) in
      (c', reschedule_begins ∙ e, handed, kept, k, w)

  -- In a well-formed context with a thread for each named action, where every action has a value
  -- other than "null" and an index is pending in the thread,
  -- reschedule_actions stops every thread of the context and leaves none with a pending index.
  pub reschedule_actions-stops :
      (i : ℕ) (is : List ℕ)
      → any_incomplete c.manifest.cell c.manifest.index ≡ false
      → (stop_thread thread).1 ≡ i ∷ is
      → (c' : Context) × (reschedule_actions fuel now position c ≡ ok (c', true))
        × All IsIdle c'.thread_controls
        × (length c'.thread_controls ≡ length c.thread_controls)
        × (c'.manifest ≡ c.manifest)
  reschedule_actions-stops i is a e =
      let n = length c.manifest.index in
      let some_left : 0 < n =
        omega (arith, s.same_length, get_elem?-lt c.thread_controls position thread here) in
      let (p, h) = start_of c.manifest i some_left in
      let g =
        next_complete fuel c.manifest (c.manifest.cell p).key i (omega (arith, enough, some_left))
          a in
      let one = one_lem fuel now i p begun none h g ∙ reschedule_to_stops now i begun in
      (
        stop_all now begun,
        reschedule_begins
            ∙ ap (λ is. reschedule_loop fuel now is begun) e
            ∙ loop_stop fuel now i is begun (stop_all now begun) one,
        unfold stop_all in All-stop begun.thread_controls,
        unfold stop_all in
            (length-map_stop begun.thread_controls
              ∙ length-set c.thread_controls position (stop_thread thread).0),
        unfold stop_all in refl,
      )
