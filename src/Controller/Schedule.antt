-- ===== src/Controller/Schedule.antt =====
-- How the controller hands execution indices to threads: reschedule_actions, after a result from
-- a peer, and the part of the scheduling loop that serves a stopped thread. A call of notify waits
-- for the turn of the initializer; the steps that other threads take meanwhile are not taken here,
-- so that a run sees the values of one moment.
mod Examples
pub mod Ready
pub mod Reschedule
pub mod Returns
pub mod Update
use stochastic_scheduler_con.Prelude.{
  ℕ, zero, suc, ◌+◌, ◌%◌, ◌≡◌, Bool, true, false, ◌&&◌, Option, none, some, List, [], ◌∷◌, ◌++◌,
  ltb, map, length, get_elem?, set, is_empty, Bytes, if◌then◌else◌,
}
use stochastic_scheduler_con.Prelude.Outcome.{Outcome, ok, ◌>>=◌, or_throw, or_fault}
use stochastic_scheduler_con.Manifest.{ActionManifest, find, next}
use stochastic_scheduler_con.Controller.Events.{update_data}
use stochastic_scheduler_con.Threads.{
  ThreadControls, Scheduler, is_stopped, has_pending_idxs, pop_idxs, notify, stop_thread,
  thread_sched_yield, set_bit, end_event,
}

-- A session with a peer, by the data of the chunks that its message has had added.
abbrev pub Session : Type 0
Session = List Bytes

-- What the two read and write of an execution context with its peers, of the scheduler and of the signal of the
-- controller.
pub record Context : Type 0 where
  pub manifest : ActionManifest
  pub thread_controls : List ThreadControls
  pub scheduler : Scheduler
  pub sched_signal : ℕ
  pub peer_client_sessions : List Session
  pub peer_server_sessions : List Session

-- start->key()
unfoldable pub start_key : ActionManifest → Option ℕ → Bytes
start_key m none = []
start_key m (some p) = (m.cell p).key

-- thread_controls[position].notify(idx)
unfoldable pub notify_at : ℕ → ℕ → ℕ → Context → Outcome Context
unfolding notify
notify_at now position idx c = or_fault (get_elem? c.thread_controls position) >>= λ t.
    let r = notify now idx (t, c.scheduler) in
    ok (record c { thread_controls = set c.thread_controls position r.0.0; scheduler = r.0.1 })

-- All threads of the context are stopped, and the initializer gets its turn.
unfoldable pub stop_all : ℕ → Context → Context
unfolding stop_thread thread_sched_yield
stop_all now c = record c {
  thread_controls = map (λ t. (stop_thread t).0) c.thread_controls;
  scheduler = (thread_sched_yield now false c.scheduler).0;
}

-- What a round of reschedule_actions does with the relation that next gives, and whether it
-- returns.
unfoldable pub reschedule_to : ℕ → ℕ → Context → Option ℕ → Outcome (Context × Bool)
unfolding start_key
reschedule_to now i c start = elim (is_empty (start_key c.manifest start)) [
  | true ↦ ok (stop_all now c, true)
  | false ↦
      or_throw (find c.manifest.cell (start_key c.manifest start) c.manifest.index 0)
      >>= λ start_it. notify_at now start_it.0 i c >>= λ c'. ok (c', false)
]

-- One round; `fuel` is for next.
unfoldable pub reschedule_one : ℕ → ℕ → ℕ → Context → Outcome (Context × Bool)
unfolding reschedule_to
reschedule_one fuel now i c =
    or_fault (get_elem? c.manifest.index (i % length c.manifest.index)) >>= λ relation.
    next fuel c.manifest (c.manifest.cell relation).key i >>= reschedule_to now i c

unfoldable pub reschedule_loop : ℕ → ℕ → List ℕ → Context → Outcome (Context × Bool)
reschedule_loop fuel now [] c = ok (c, false)
reschedule_loop fuel now (i ∷ is) c = reschedule_one fuel now i c >>= λ r. elim r.1 [
  | true ↦ ok r
  | false ↦ reschedule_loop fuel now is r.0
]

-- reschedule_actions for the thread at a position, and whether it has stopped all threads.
unfoldable pub reschedule_actions : ℕ → ℕ → ℕ → Context → Outcome (Context × Bool)
unfolding stop_thread
reschedule_actions fuel now position c =
    or_fault (get_elem? c.thread_controls position) >>= λ thread.
    let r = stop_thread thread in
    reschedule_loop fuel now r.1 (record c {
      thread_controls = set c.thread_controls position r.0;
      sched_signal = set_bit c.sched_signal end_event;
    })

-- The first thread that is stopped and has pending indices, from a position on.
unfoldable pub find_stopped : List ThreadControls → ℕ → Option (ℕ × ThreadControls)
unfolding is_stopped has_pending_idxs
find_stopped [] position = none
find_stopped (t ∷ ts) position =
    let rest = find_stopped ts (position + 1) in
    if is_stopped t && has_pending_idxs t then some (position, t) else rest

-- The thread of the relation that next gives is notified. Where no relation has the key, the
-- distance to the end of the manifest is its size.
unfoldable pub notify_relation : ℕ → ℕ → Context → Option ℕ → Outcome Context
unfolding start_key
notify_relation now idx c next_relation =
    elim (find c.manifest.cell (start_key c.manifest next_relation) c.manifest.index 0) [
      | none ↦ notify_at now (length c.manifest.index) idx c
      | some next_it ↦ notify_at now next_it.0 idx c
    ]

-- The loop over the indices of a stopped thread.
unfoldable pub notify_next : ℕ → ℕ → Bytes → List ℕ → Context → Outcome Context
unfolding notify_relation
notify_next fuel now key [] c = ok c
notify_next fuel now key (idx ∷ idxs) c =
    next fuel c.manifest key idx >>= notify_relation now idx c >>= notify_next fuel now key idxs

-- What is appended to the chunks of a session.
unfoldable pub add_chunk : Option Bytes → Session → Session
add_chunk none chunks = chunks
add_chunk (some text) chunks = chunks ++ text ∷ []

-- The two loops over the sessions.
abbrev pub write_chunk : Option Bytes → Context → Context
write_chunk update c = record c {
  peer_client_sessions = map (add_chunk update) c.peer_client_sessions;
  peer_server_sessions = map (add_chunk update) c.peer_server_sessions;
}

module _ {Json : Type 0} (parse : Bytes → Option Json) (serialize : Bytes → Json → Bytes) where
  -- The state update for the peers, where there are any, of the thread at a position.
  unfoldable pub update_peers : ℕ → Context → Outcome Context
  unfolding add_chunk update_data
  update_peers idx c =
      elim (ltb 0 (length c.peer_client_sessions + length c.peer_server_sessions)) [
        | false ↦ ok c
        | true ↦ or_fault (get_elem? c.manifest.index idx) >>= λ p.
            update_data parse serialize (c.manifest.cell p) >>= λ update. ok (write_chunk update c)
      ]

  -- What the scheduling loop does for a context with a stopped thread.
  unfoldable pub update_context : ℕ → ℕ → Context → Outcome Context
  unfolding pop_idxs update_peers
  update_context fuel now c = or_fault (find_stopped c.thread_controls 0) >>= λ stopped_thread.
      let r = pop_idxs stopped_thread.1 in
      update_peers stopped_thread.0
        (record c { thread_controls = set c.thread_controls stopped_thread.0 r.0 })
      >>= λ c'.
          or_fault
            (get_elem? c'.manifest.index ((stopped_thread.0 + 1) % length c'.thread_controls))
          >>= λ p. notify_next fuel now (c'.manifest.cell p).key r.1 c'
