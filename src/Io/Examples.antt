-- ===== src/Io/Examples.antt =====
-- A run of the queue, and the signal at the top of the scheduling loop.
use stochastic_scheduler_con.Prelude.{◌≡◌, refl, true, false, ◌||◌, none, some, [], ◌∷◌}
use stochastic_scheduler_con.Io.{Events, loop_top, wakes, mq_is_full, mq_pull, mq_push}
use stochastic_scheduler_con.Io.Queue.{
  State, Reach, begins, steps, admits, pushes, pulls, start, IsSound, Reach-IsSound,
}
use stochastic_scheduler_con.Io.Signal.{IsKept, is_message, loop_top_lem}

abbrev one_pulled : State
one_pulled = record { mq = []; admitted = none; arrived = 7 ∷ []; pulled = 7 ∷ [] }

one_message : Reach one_pulled
unfolding mq_is_full mq_pull mq_push
one_message =
    steps
      (steps (steps begins (admits start 7 refl refl))
        (pushes (record start { admitted = some 7; arrived = 7 ∷ [] }) 7 refl))
      (pulls (record start { mq = 7 ∷ []; arrived = 7 ∷ [] }) 7 refl)

Reach-IsSound_example : IsSound one_pulled
Reach-IsSound_example = Reach-IsSound one_message

abbrev reading : Events
reading = record { terminate = false; read = true; sched_start = false; sched_end = false }

abbrev ending : Events
ending = record { terminate = true; read = true; sched_start = false; sched_end = true }

loop_top_lem_example :
    IsKept true true
      (loop_top reading (7 ∷ []) ending).0.0.read
      (loop_top reading (7 ∷ []) ending).1.0.read
    × IsKept false false
        (loop_top reading (7 ∷ []) ending).0.0.sched_start
        (loop_top reading (7 ∷ []) ending).1.0.sched_start
    × IsKept false true
        (loop_top reading (7 ∷ []) ending).0.0.sched_end
        (loop_top reading (7 ∷ []) ending).1.0.sched_end
    × ((loop_top reading (7 ∷ []) ending).1.0.terminate ≡ (false || true))
    × (wakes (7 ∷ []) reading ≡ (
        ((loop_top reading (7 ∷ []) ending).0.0.read
          || ((loop_top reading (7 ∷ []) ending).0.0.sched_start
              || (loop_top reading (7 ∷ []) ending).0.0.sched_end))
        || is_message (loop_top reading (7 ∷ []) ending).0.1))
loop_top_lem_example = loop_top_lem reading (7 ∷ []) ending
