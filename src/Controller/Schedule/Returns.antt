-- ===== src/Controller/Schedule/Returns.antt =====
-- reschedule_actions returns in every schedule, and changes neither the manifest nor the number of
-- threads.
use stochastic_scheduler_con.Prelude.{
  ℕ, ◌+◌, ◌≤◌, ◌≡◌, inl, inr, refl, ap, ◌∙◌, Bool, true, false, some, [], length, get_elem?,
  Bool-cases,
}
use stochastic_scheduler_con.Prelude.Outcome.{ok}
use stochastic_scheduler_con.Manifest.{any_incomplete}
use stochastic_scheduler_con.Threads.{ThreadControls, stop_thread}
use stochastic_scheduler_con.Controller.Schedule.{Context, reschedule_loop, reschedule_actions}
use stochastic_scheduler_con.Controller.Schedule.Ready.{IsSchedule, Handed-pending, length-set}
use stochastic_scheduler_con.Controller.Schedule.Reschedule.{
  begun, reschedule_begins, reschedule_actions-hands, reschedule_actions-stops,
}
use stochastic_scheduler_con.Controller.Schedule.Update.{list_cases}

loop_nil : (fuel now : ℕ) (c : Context) → reschedule_loop fuel now [] c ≡ ok (c, false)
unfolding reschedule_loop
loop_nil fuel now c = refl

pub reschedule_returns :
    (bound fuel now position : ℕ) (c : Context) (thread : ThreadControls)
    → IsSchedule bound c
    → length c.manifest.index + bound ≤ fuel
    → get_elem? c.thread_controls position ≡ some thread
    → (c' : Context) × (b : Bool) × (reschedule_actions fuel now position c ≡ ok (c', b))
      × (c'.manifest ≡ c.manifest)
      × (length c'.thread_controls ≡ length c.thread_controls)
reschedule_returns bound fuel now position c thread s l h =
    elim (Bool-cases (any_incomplete c.manifest.cell c.manifest.index)) [
      | inl a ↦
          let (c', e, handed, _, k, _) =
            reschedule_actions-hands bound fuel now position c thread s l h a in
          (
            c',
            false,
            e,
            k,
            (Handed-pending handed).1
                ∙ length-set c.thread_controls position (stop_thread thread).0,
          )
      | inr a ↦ elim (list_cases (stop_thread thread).1) [
        | inl n ↦
            let b = begun bound fuel now position c thread s l h in
            (
              b,
              false,
              reschedule_begins bound fuel now position c thread s l h
                  ∙ ap (λ is. reschedule_loop fuel now is b) n
                  ∙ loop_nil fuel now b,
              refl,
              length-set c.thread_controls position (stop_thread thread).0,
            )
        | inr (i, is, n) ↦
            let (c', e, _, k, w) =
              reschedule_actions-stops bound fuel now position c thread s l h i is a n in
            (c', true, e, w, k)
      ]
    ]
