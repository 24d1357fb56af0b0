-- ===== src/Controller/Schedule/Examples.antt =====
-- A context of two actions, the first of which depends on the second, on which the results about
-- the scheduling apply.
use stochastic_scheduler_con.Prelude.{
  ℕ, zero, suc, ◌<◌, ◌≡◌, ◌⊎◌, inl, inr, refl, sym, ap, ◌∙◌, subst, true, false, Option, map, some,
  List, [], ◌∷◌, arith, length, get_elem?, set, is_empty, All, Bytes, codes, bytes_eq,
}
use stochastic_scheduler_con.Prelude.Outcome.{ok, fault}
use stochastic_scheduler_con.Manifest.{
  ActionManifest, Cells, default_relation, find, is_incomplete, any_incomplete,
}
use stochastic_scheduler_con.Manifest.Invariant.{IsWellFormed}
use stochastic_scheduler_con.Threads.{
  ThreadControls, new_thread, is_stopped, has_pending_idxs, stop_thread, pop_idxs, set_bit,
  end_event,
}
use stochastic_scheduler_con.Controller.Schedule.{
  Context, reschedule_actions, find_stopped, update_context, add_chunk,
}
use stochastic_scheduler_con.Controller.Schedule.Ready.{IsSchedule, Handed, pending}
use stochastic_scheduler_con.Controller.Schedule.Reschedule.{
  IsIdle, reschedule_actions-hands, reschedule_actions-stops,
}
use stochastic_scheduler_con.Controller.Schedule.Update.{
  IsUpdate, IsUpdateOf, update_context-hands, update_context-faults,
}
use stochastic_scheduler_con.Controller.Results.{response, merge_results}
use stochastic_scheduler_con.Controller.Results.Store.{Keeps, IsResult}
use stochastic_scheduler_con.Controller.Results.Merge.{HasResult, IsMember, merge_results_lem}

-- The action at 0, "ab", depends on that at 1, "a"; these are their values.
abbrev cells : Bytes → Bytes → Cells
cells b a zero = record default_relation {
  key = codes "ab";
  value = b;
  dependencies = 1 ∷ [];
  depth = 2;
}
cells b a (suc p) = record default_relation { key = codes "a"; value = a; depth = 1 }

abbrev manifest : Bytes → Bytes → ActionManifest
manifest b a = record { concurrency = 2; index = 0 ∷ 1 ∷ []; cell = cells b a; fresh = 2 }

-- The second thread has stopped and has the indices 4 and 5 pending.
abbrev stopped_thread : ThreadControls
stopped_thread = record new_thread { signal = 6; execution_context_idxs = 4 ∷ 5 ∷ [] }

abbrev context : Bytes → Bytes → Context
context b a = record {
  manifest = manifest b a;
  thread_controls = new_thread ∷ stopped_thread ∷ [];
  scheduler = record { sched_handles = 9 ∷ []; flag = λ h. false; start_timer = 0 };
  sched_signal = 0;
  peer_client_sessions = (codes "[" ∷ []) ∷ [];
  peer_server_sessions = [];
}

only_two : (i p : ℕ) → get_elem? (0 ∷ 1 ∷ []) i ≡ some p → (i ≡ p) × ((0 ≡ p) ⊎ (1 ≡ p))
only_two zero p h = (cc h, inl (cc h))
only_two (suc zero) p h = (cc h, inr (cc h))
only_two (suc (suc i)) p h = absurd (cc h)

-- What holds of the two actions holds of every action.
both : (P : ℕ → Type 0) → P 0 → P 1 → (i p : ℕ) → get_elem? (0 ∷ 1 ∷ []) i ≡ some p → P p
both P x y i p h = elim (only_two i p h).1 [ inl e ↦ subst P e x | inr e ↦ subst P e y ]

closed_below :
    (b a : Bytes) (p : ℕ)
    → (0 ≡ p) ⊎ (1 ≡ p)
    → (k d : ℕ) → get_elem? (cells b a p).dependencies k ≡ some d
    → (j : ℕ) × (get_elem? (0 ∷ 1 ∷ []) j ≡ some d) × ((cells b a d).depth < (cells b a p).depth)
closed_below b a zero c zero d h =
    let e : 1 ≡ d = cc h in (1, ap some e, subst (λ d. (cells b a d).depth < 2) e (omega arith))
closed_below b a zero c (suc k) d h = absurd (cc h)
closed_below b a (suc p) c k d h = absurd (cc h)

distinct_keys :
    (b a : Bytes) (p q : ℕ)
    → (0 ≡ p) ⊎ (1 ≡ p)
    → (0 ≡ q) ⊎ (1 ≡ q)
    → (cells b a p).key ≡ (cells b a q).key
    → p ≡ q
distinct_keys b a zero zero c d h = refl
distinct_keys b a zero (suc q) c d h = absurd (omega (arith, ap length h))
distinct_keys b a (suc p) zero c d h = absurd (omega (arith, ap length h))
distinct_keys b a (suc p) (suc q) c d h = ground (arith, c, d)

manifest-IsWellFormed : (b a : Bytes) → IsWellFormed (manifest b a)
manifest-IsWellFormed b a = record {
  allocated = both (λ p. p < 2) (omega arith) (omega arith);
  closed = λ i p k d e f. closed_below b a p (only_two i p e).1 k d f;
  distinct = λ i j p q e f g.
      (only_two i p e).0
      ∙ distinct_keys b a p q (only_two i p e).1 (only_two j q f).1 g
      ∙ sym (only_two j q f).0;
}

-- A value that is not "null".
abbrev IsSettled : Bytes → Type 0
IsSettled v = is_incomplete v ≡ true → is_empty v ≡ true

context-IsSchedule : (b a : Bytes) → IsSettled b → IsSettled a → IsSchedule 3 (context b a)
context-IsSchedule b a x y = record {
  well_formed = manifest-IsWellFormed b a;
  named = both (λ p. is_empty (cells b a p).key ≡ false) refl refl;
  low = both (λ p. (cells b a p).depth < 3) (omega arith) (omega arith);
  settled = both (λ p. IsSettled (cells b a p).value) x y;
  same_length = refl;
}

no_value : IsSettled []
no_value h = refl

a_value : IsSettled (codes "{}")
unfolding is_incomplete bytes_eq
a_value h = absurd (cc h)

waiting : any_incomplete (cells [] []) (0 ∷ 1 ∷ []) ≡ true
unfolding any_incomplete is_incomplete
waiting = refl

complete : any_incomplete (cells (codes "{}") (codes "{}")) (0 ∷ 1 ∷ []) ≡ false
unfolding any_incomplete is_incomplete bytes_eq
complete = refl

abbrev idle : Context
idle = context [] []

abbrev done : Context
done = context (codes "{}") (codes "{}")

idle-IsSchedule : IsSchedule 3 idle
idle-IsSchedule = context-IsSchedule [] [] no_value no_value

done-IsSchedule : IsSchedule 3 done
done-IsSchedule = context-IsSchedule (codes "{}") (codes "{}") a_value a_value

reschedule_actions-hands_example :
    (c' : Context) × (reschedule_actions 5 8 1 idle ≡ ok (c', false))
    × Handed idle.manifest
        (stop_thread stopped_thread).1
        (set idle.thread_controls 1 (stop_thread stopped_thread).0)
        c'.thread_controls
    × (pending c'.thread_controls ≡ pending idle.thread_controls)
    × (c'.manifest ≡ idle.manifest)
    × (c'.sched_signal ≡ set_bit 0 end_event)
reschedule_actions-hands_example =
    reschedule_actions-hands 3 5 8 1 idle stopped_thread idle-IsSchedule (omega arith) refl waiting

pops_two : (stop_thread stopped_thread).1 ≡ 4 ∷ 5 ∷ []
unfolding stop_thread
pops_two = refl

reschedule_actions-stops_example :
    (c' : Context) × (reschedule_actions 5 8 1 done ≡ ok (c', true))
    × All IsIdle c'.thread_controls
    × (length c'.thread_controls ≡ 2)
    × (c'.manifest ≡ done.manifest)
reschedule_actions-stops_example =
    reschedule_actions-stops 3 5 8 1 done stopped_thread done-IsSchedule (omega arith) refl 4
      (5 ∷ []) complete pops_two

found_stopped :
    (b a : Bytes) → find_stopped (context b a).thread_controls 0 ≡ some (1, stopped_thread)
unfolding find_stopped is_stopped has_pending_idxs
found_stopped b a = refl

-- JSON of which the text is the value, and the text of a result.
abbrev parse : Bytes → Option Bytes
parse text = some text

abbrev serialize : Bytes → Bytes → Bytes
serialize key jv = codes "{}"

all_json : (c : Context) → IsUpdate parse serialize 1 c
all_json c = λ p n e i. ((c.manifest.cell p).value, refl)

update_context-hands_example :
    (c' : Context) × (update_context parse serialize 5 8 idle ≡ ok c')
    × Handed idle.manifest
        (pop_idxs stopped_thread).1
        (set idle.thread_controls 1 (pop_idxs stopped_thread).0)
        c'.thread_controls
    × (pending c'.thread_controls ≡ pending idle.thread_controls)
    × (c'.manifest ≡ idle.manifest)
    × ((chunk : Option Bytes) × IsUpdateOf parse serialize 1 idle chunk
        × (c'.peer_client_sessions ≡ map (add_chunk chunk) idle.peer_client_sessions)
        × (c'.peer_server_sessions ≡ map (add_chunk chunk) idle.peer_server_sessions))
update_context-hands_example =
    update_context-hands parse serialize 3 5 8 1 idle stopped_thread idle-IsSchedule (omega arith)
      (found_stopped [] []) (all_json idle) waiting

update_context-faults_example : update_context parse serialize 5 8 done ≡ fault
update_context-faults_example =
    update_context-faults parse serialize 3 5 8 1 done stopped_thread done-IsSchedule (omega arith)
      (found_stopped (codes "{}") (codes "{}")) (all_json done) complete

abbrev members : List (Bytes × Bytes)
members = (codes "a", codes "{}") ∷ (codes "ab", codes "null") ∷ []

members-IsMember : All (IsMember idle) members
unfolding find bytes_eq
members-IsMember = ((((1, 1), refl), refl), ((((0, 0), refl), refl), tt))

merge_results_lem_example :
    (c' : Context) × (merge_results response 5 8 members idle ≡ ok c')
    × IsSchedule 3 c'
    × Keeps idle c'
    × All (λ kvp. IsResult kvp.1 → HasResult c' kvp.0) members
merge_results_lem_example =
    merge_results_lem 3 response 5 8 members idle idle-IsSchedule (omega arith) members-IsMember
