-- ===== src/Controller/Schedule/Update.antt =====
-- The service of a stopped thread: its indices go to ready actions.
use stochastic_scheduler_con.Prelude.{
  ℕ, zero, suc, ◌+◌, ◌%◌, ◌<◌, ◌≤◌, ◌≡◌, ◌⊎◌, inl, inr, refl, ap, ◌∙◌, true, false, ◌&&◌, Option,
  sym, false, ◌++◌, codes, map, ltb, none, some, List, [], ◌∷◌, arith, length, get_elem?, set,
  is_empty, Bytes, subst, Bool-cases, Option-cases,
}
use stochastic_scheduler_con.Prelude.Outcome.{ok, fault}
use stochastic_scheduler_con.Controller.Events.{update_data}
use stochastic_scheduler_con.Controller.Events.Stream.{result_some}
use stochastic_scheduler_con.Manifest.{Relation, is_incomplete, find, next, any_incomplete}
use stochastic_scheduler_con.Manifest.Index.{get_elem?_of_lt, get_elem?-lt, find_sound}
use stochastic_scheduler_con.Threads.{ThreadControls, is_stopped, has_pending_idxs, pop_idxs}
use stochastic_scheduler_con.Controller.Schedule.{
  Session, Context, start_key, notify_at, find_stopped, notify_relation, notify_next, add_chunk,
  write_chunk, update_peers, update_context,
}
use stochastic_scheduler_con.Controller.Schedule.Ready.{
  IsSchedule, next-IsReady_lem, Handed, nothing, hands, pending, length-set, pending-set,
  Handed-pending,
}
use stochastic_scheduler_con.Controller.Schedule.Reschedule.{
  notified_at, notify_at_lem, notified-IsSchedule, next_complete,
}

-- What is found is stopped and has a pending index, and stands at its position.
find_stopped_lem :
    (ts : List ThreadControls) (start j : ℕ) (t : ThreadControls)
    → find_stopped ts start ≡ some (j, t)
    → (k : ℕ) × (j ≡ start + k)
      × (get_elem? ts k ≡ some t)
      × (is_stopped t ≡ true)
      × (has_pending_idxs t ≡ true)
unfolding find_stopped
find_stopped_lem [] start j t h = absurd (cc h)
find_stopped_lem (u ∷ ts) start j t h = elim (Bool-cases (is_stopped u && has_pending_idxs u)) [
  | inl e ↦
      let same : u ≡ t = ground arith in
      (
        0,
        ground arith,
        ap some same,
        subst (λ u. is_stopped u ≡ true) same (ground arith),
        subst (λ u. has_pending_idxs u ≡ true) same (ground arith),
      )
  | inr e ↦
      let (k, a, b, f, g) = find_stopped_lem ts (start + 1) j t (ground arith) in
      (suc k, omega (arith, a), b, f, g)
]

notify_relation_lem :
    (now idx r j : ℕ) (t : ThreadControls) (c : Context)
    → find c.manifest.cell (c.manifest.cell r).key c.manifest.index 0 ≡ some (j, r)
    → get_elem? c.thread_controls j ≡ some t
    → notify_relation now idx c (some r) ≡ ok (notified_at now j idx t c)
unfolding notify_relation start_key
notify_relation_lem now idx r j t c f g = rw (f, notify_relation) (notify_at_lem now j idx t c g)

get_elem?-none {ℓ} : {A : Type ℓ} (xs : List A) (i : ℕ) → length xs ≤ i → get_elem? xs i ≡ none
get_elem?-none [] i h = refl
get_elem?-none (x ∷ xs) zero h = absurd (omega (arith, h))
get_elem?-none (x ∷ xs) (suc i) h = get_elem?-none xs i (omega (arith, h))

notify_at_end :
    (now position idx : ℕ) (c : Context)
    → get_elem? c.thread_controls position ≡ none
    → notify_at now position idx c ≡ fault
unfolding notify_at
notify_at_end now position idx c h = rw (h, notify_at) refl

notify_next_step :
    (fuel now : ℕ) (key : Bytes) (idx : ℕ) (idxs : List ℕ) (c c' : Context) (n : Option ℕ)
    → next fuel c.manifest key idx ≡ ok n
    → notify_relation now idx c n ≡ ok c'
    → notify_next fuel now key (idx ∷ idxs) c ≡ notify_next fuel now key idxs c'
unfolding notify_next
notify_next_step fuel now key idx idxs c c' n h g = rw (h, notify_next) (rw g refl)

notify_next_lem :
    (bound fuel now i p : ℕ) (idxs : List ℕ) (c : Context)
    → IsSchedule bound c
    → any_incomplete c.manifest.cell c.manifest.index ≡ true
    → length c.manifest.index + bound ≤ fuel
    → get_elem? c.manifest.index i ≡ some p
    → (c' : Context) × (notify_next fuel now (c.manifest.cell p).key idxs c ≡ ok c')
      × Handed c.manifest idxs c.thread_controls c'.thread_controls
      × (c'.manifest ≡ c.manifest)
      × (c'.peer_client_sessions ≡ c.peer_client_sessions)
      × (c'.peer_server_sessions ≡ c.peer_server_sessions)
notify_next_lem bound fuel now i p [] c s a l h =
    (c, unfold notify_next in refl, nothing, refl, refl, refl)
notify_next_lem bound fuel now i p (idx ∷ idxs) c s a l h =
    let (r, j, t, b, ready, at, f, g) = next-IsReady_lem bound fuel c i p idx s a l h in
    let c₁ = notified_at now j idx t c in
    let (c', e, handed, k, f', g') =
      notify_next_lem bound fuel now i p idxs c₁ (notified-IsSchedule bound now j idx t c s) a l
        h in
    (
      c',
      notify_next_step fuel now (c.manifest.cell p).key idx idxs c c₁ (some r) b
            (notify_relation_lem now idx r j t c f g)
          ∙ e,
      hands now idx j r t c.scheduler ready at g handed,
      k,
      f',
      g',
    )

pub list_cases : (xs : List ℕ) → (xs ≡ []) ⊎ ((x : ℕ) × (ys : List ℕ) × (xs ≡ x ∷ ys))
list_cases [] = inl refl
list_cases (x ∷ xs) = inr (x, xs, refl)

pops :
    (t : ThreadControls)
    → has_pending_idxs t ≡ true
    → (idx : ℕ) × (idxs : List ℕ) × ((pop_idxs t).1 ≡ idx ∷ idxs)
unfolding has_pending_idxs pop_idxs
pops t h = elim (list_cases t.execution_context_idxs) [
  | inl e ↦ absurd (ground (arith, h, ap length e))
  | inr w ↦ w
]

add_chunk-none : (sessions : List Session) → map (add_chunk none) sessions ≡ sessions
unfolding add_chunk
add_chunk-none [] = refl
add_chunk-none (chunks ∷ sessions) = ap (◌∷◌ chunks) (add_chunk-none sessions)

write_chunk-none : (c : Context) → write_chunk none c ≡ c
write_chunk-none c =
    cc (add_chunk-none c.peer_client_sessions, add_chunk-none c.peer_server_sessions)

module _ {Json : Type 0} (parse : Bytes → Option Json) (serialize : Bytes → Json → Bytes) where
  -- Where there are peers, the value of the action at a position is JSON, if there is one.
  abbrev pub IsUpdate : ℕ → Context → Type 0
  IsUpdate position c =
      (p : ℕ)
      → 0 < length c.peer_client_sessions + length c.peer_server_sessions
      → get_elem? c.manifest.index position ≡ some p
      → is_incomplete (c.manifest.cell p).value ≡ false
      → (jv : Json) × (parse (c.manifest.cell p).value ≡ some jv)

  -- The chunk that the peers get: none where there are no peers, else the update for the action.
  abbrev pub IsUpdateOf : ℕ → Context → Option Bytes → Type 0
  IsUpdateOf position c chunk =
      (length c.peer_client_sessions + length c.peer_server_sessions ≡ 0)
      ⊎ ((p : ℕ) × (get_elem? c.manifest.index position ≡ some p)
          × (update_data parse serialize (c.manifest.cell p) ≡ ok chunk))

  update_data_lem :
      (r : Relation)
      → (is_incomplete r.value ≡ false → (jv : Json) × (parse r.value ≡ some jv))
      → (chunk : Option Bytes) × (update_data parse serialize r ≡ ok chunk)
  unfolding update_data
  update_data_lem r h = elim (Bool-cases (is_incomplete r.value)) [
    | inl e ↦ (none, rw (e, update_data) refl)
    | inr e ↦
        let (jv, f) = h e in
        (
          some (codes "," ++ serialize r.key jv),
          rw (e, update_data) (rw (result_some parse serialize r jv e f) refl),
        )
  ]

module _ {Json : Type 0} (parse : Bytes → Option Json) (serialize : Bytes → Json → Bytes)
    (bound fuel now position : ℕ) (c : Context) (thread : ThreadControls) (s : IsSchedule bound c)
    (enough : length c.manifest.index + bound ≤ fuel)
    (stopped : find_stopped c.thread_controls 0 ≡ some (position, thread))
    (json : IsUpdate parse serialize position c) where
  here : get_elem? c.thread_controls position ≡ some thread
  here =
      let (k, a, b, _, _) = find_stopped_lem c.thread_controls 0 position thread stopped in
      let e : k ≡ position = omega (arith, a) in
      subst (λ k. get_elem? c.thread_controls k ≡ some thread) e b

  abbrev popped : Context
  popped = record c { thread_controls = set c.thread_controls position (pop_idxs thread).0 }

  popped-IsSchedule : IsSchedule bound popped
  popped-IsSchedule = record {
    well_formed = s.well_formed;
    named = s.named;
    low = s.low;
    settled = s.settled;
    same_length = length-set c.thread_controls position (pop_idxs thread).0 ∙ s.same_length;
  }

  -- The action after that of the thread.
  after :
      (p : ℕ) × (get_elem? c.manifest.index ((position + 1) % length c.thread_controls) ≡ some p)
  after =
      get_elem?_of_lt c.manifest.index ((position + 1) % length c.thread_controls)
        (omega (arith, s.same_length, get_elem?-lt c.thread_controls position thread here))

  peers_updated :
      (chunk : Option Bytes) × (update_peers parse serialize position popped
        ≡ ok (write_chunk chunk popped))
      × IsUpdateOf parse serialize position c chunk
  unfolding update_peers
  peers_updated =
      elim (Bool-cases (ltb 0 (length c.peer_client_sessions + length c.peer_server_sessions))) [
        | inr e ↦ (
          none,
          rw (e, update_peers) (ap (λ c. ok c) (sym (write_chunk-none popped))),
          inl (ground arith),
        )
        | inl e ↦
            let (p, at) =
              get_elem?_of_lt c.manifest.index position (
                omega
                  (arith, s.same_length, get_elem?-lt c.thread_controls position thread here)) in
            let (chunk, f) =
              update_data_lem parse serialize (c.manifest.cell p) (json p (ground arith) at) in
            (chunk, rw (e, update_peers) (rw at (rw f refl)), inr (p, at, f))
      ]

  abbrev updated : Context
  updated = write_chunk peers_updated.0 popped

  update_begins :
      update_context parse serialize fuel now c
      ≡ notify_next fuel now (c.manifest.cell after.0).key (pop_idxs thread).1 updated
  unfolding update_context
  update_begins =
      let same : get_elem? c.manifest.index
            ((position + 1) % length (set c.thread_controls position (pop_idxs thread).0))
          ≡ some after.0 =
        ap (λ n. get_elem? c.manifest.index ((position + 1) % n))
          (length-set c.thread_controls position (pop_idxs thread).0)
        ∙ after.1 in
      rw (stopped, update_context) (rw (peers_updated.1) (rw same refl))

  updated-IsSchedule : IsSchedule bound updated
  updated-IsSchedule = record {
    well_formed = s.well_formed;
    named = s.named;
    low = s.low;
    settled = s.settled;
    same_length = popped-IsSchedule.same_length;
  }

  pop_idxs_pending :
      length (pop_idxs thread).0.execution_context_idxs + length (pop_idxs thread).1
      ≡ length thread.execution_context_idxs
  unfolding pop_idxs
  pop_idxs_pending = omega arith

  -- In a well-formed context with a thread for each named action and no value "null", while an
  -- action is incomplete, the service of its first stopped thread with pending indices returns, on
  -- enough fuel for next, where there are no peers or the value of the thread's action, if it has
  -- one, is JSON: each of these indices is handed to the thread of an action that has no value and
  -- whose dependencies have one, as many indices are pending in the context as before, and every
  -- peer gets the update for the thread's action, or none where it has no value.
  pub update_context-hands :
      any_incomplete c.manifest.cell c.manifest.index ≡ true
      → (c' : Context) × (update_context parse serialize fuel now c ≡ ok c')
        × Handed c.manifest
            (pop_idxs thread).1
            (set c.thread_controls position (pop_idxs thread).0)
            c'.thread_controls
        × (pending c'.thread_controls ≡ pending c.thread_controls)
        × (c'.manifest ≡ c.manifest)
        × ((chunk : Option Bytes) × IsUpdateOf parse serialize position c chunk
            × (c'.peer_client_sessions ≡ map (add_chunk chunk) c.peer_client_sessions)
            × (c'.peer_server_sessions ≡ map (add_chunk chunk) c.peer_server_sessions))
  update_context-hands a =
      let (p, h) = after in
      let (c', e, handed, k, f, g) =
        notify_next_lem bound fuel now ((position + 1) % length c.thread_controls) p
          (pop_idxs thread).1 updated updated-IsSchedule a enough h in
      let kept : pending c'.thread_controls ≡ pending c.thread_controls = omega (
        arith,
        (Handed-pending handed).0,
        pop_idxs_pending,
        pending-set c.thread_controls position thread (pop_idxs thread).0 here,
      ) in
      (c', update_begins ∙ e, handed, kept, k, (peers_updated.0, peers_updated.2, f, g))

  unnamed : find c.manifest.cell [] c.manifest.index 0 ≡ none
  unnamed = elim (Option-cases (find c.manifest.cell [] c.manifest.index 0)) [
    | inl e ↦ e
    | inr (it, e) ↦
        let (k, _, at, same) = find_sound c.manifest.cell [] c.manifest.index 0 it.0 it.1 e in
        absurd (cc (ap is_empty same, s.named k it.1 at))
  ]

  past_the_end : (idx : ℕ) → notify_relation now idx updated none ≡ fault
  unfolding notify_relation start_key
  past_the_end idx =
      rw (unnamed, notify_relation)
        (notify_at_end now (length c.manifest.index) idx updated (
          get_elem?-none updated.thread_controls (length c.manifest.index)
            (omega (arith, updated-IsSchedule.same_length))))

  notify_next_fault :
      (key : Bytes) (idx : ℕ) (idxs : List ℕ)
      → next fuel c.manifest key idx ≡ ok none
      → notify_next fuel now key (idx ∷ idxs) updated ≡ fault
  unfolding notify_next
  notify_next_fault key idx idxs h = rw (h, notify_next) (rw (past_the_end idx) refl)

  -- In a well-formed context with a thread for each named action, where every action has a value
  -- other than "null", the service of a stopped thread with pending indices reads a thread past the
  -- end, where there are no peers or the value of the thread's action is JSON: the relation that
  -- next gives is not in the manifest, and the code does not look.
  pub update_context-faults :
      any_incomplete c.manifest.cell c.manifest.index ≡ false
      → update_context parse serialize fuel now c ≡ fault
  update_context-faults a =
      let (k, _, _, _, f) = find_stopped_lem c.thread_controls 0 position thread stopped in
      let (idx, idxs, e) = pops thread f in
      let key = (c.manifest.cell after.0).key in
      let some_left : 0 < fuel =
        omega (arith, enough, s.same_length, get_elem?-lt c.thread_controls position thread here) in
      update_begins
      ∙ ap (λ is. notify_next fuel now key is updated) e
      ∙ notify_next_fault key idx idxs (next_complete fuel c.manifest key idx some_left a)
