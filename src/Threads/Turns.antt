-- ===== src/Threads/Turns.antt =====
-- The turns of thread_sched_yield.
use native.Mathlib.Nat.{div-add-mod, mod-lt}
use stochastic_scheduler_con.Prelude.{
  ℕ, ◌⊎◌, inl, inr, zero, suc, ◌+◌, ◌*◌, ◌/◌, ◌<◌, ◌≤◌, ◌≡◌, ◌≢◌, refl, sym, ap, ◌∙◌, Bool, true,
  false, not, List, [], ◌∷◌, ◌++◌, append_assoc, append-nil, arith, some, length, All, ◌==◌,
  if◌then◌else◌,
}
use stochastic_scheduler_con.Prelude.Outcome.{ok, thrown}
use stochastic_scheduler_con.Threads.{
  Scheduler, Wait, thread_sched_yield, thread_sched_time_slice, released, time_slice, set_flag,
}

-- Calls of thread_sched_yield(false), one after the other.
pub turns : ℕ → ℕ → Scheduler → Scheduler
unfolding thread_sched_yield
turns now zero s = s
turns now (suc k) s = turns now k (thread_sched_yield now false s).0

abbrev toggled : (ℕ → Bool) → List ℕ → ℕ → Bool
toggled flag [] k = flag k
toggled flag (h ∷ hs) k = toggled (λ j. if h == j then not (flag h) else flag j) hs k

abbrev pub queue : List ℕ → (ℕ → Bool) → ℕ → Scheduler
queue hs flag time = record { sched_handles = hs; flag = flag; start_timer = time }

turns_step :
    (now k h : ℕ) (hs : List ℕ) (flag : ℕ → Bool) (time : ℕ)
    → turns now (suc k) (queue (h ∷ hs) flag time)
      ≡ turns now k (queue (hs ++ h ∷ []) (set_flag flag h (not (flag h))) now)
unfolding turns
turns_step now k h hs flag time = refl

set_flag_other : (flag : ℕ → Bool) (h k : ℕ) → h ≢ k → set_flag flag h (not (flag h)) k ≡ flag k
set_flag_other flag h k n = ground arith

-- As many turns as `hs` has threads let all of those go once, in order.
turns_lem :
    (now time : ℕ) (hs rest : List ℕ) (flag : ℕ → Bool)
    → (t : ℕ) × (turns now (length hs) (queue (hs ++ rest) flag time)
        ≡ queue (rest ++ hs) (toggled flag hs) t)
turns_lem now time [] rest flag =
    (time, unfold turns in ap (λ hs. queue hs flag time) (sym (append-nil rest)))
turns_lem now time (h ∷ hs) rest flag =
    let hs₀ = hs in
    let (t, e) = turns_lem now now hs (rest ++ h ∷ []) (set_flag flag h (not (flag h))) in
    (
      t,
      turns_step now (length hs) h (hs ++ rest) flag time
          ∙ ap (λ hs. turns now (length hs₀) (queue hs (set_flag flag h (not (flag h))) now))
              (append_assoc hs rest (h ∷ []))
          ∙ e
          ∙ ap (λ hs. queue hs (toggled flag (h ∷ hs₀)) t) (append_assoc rest (h ∷ []) hs),
    )

toggled_other :
    (flag : ℕ → Bool) (hs : List ℕ) (k : ℕ) → All (λ h. h ≢ k) hs → toggled flag hs k ≡ flag k
toggled_other flag [] k a = refl
toggled_other flag (h ∷ hs) k a =
    toggled_other (set_flag flag h (not (flag h))) hs k a.1 ∙ set_flag_other flag h k a.0

-- Each of the handles that wait stands once in the queue.
abbrev pub IsDistinct : List ℕ → Type 0
IsDistinct [] = Unit
IsDistinct (h ∷ hs) = All (λ k. k ≢ h) hs × IsDistinct hs

set_flag_self : (flag : ℕ → Bool) (h : ℕ) → set_flag flag h (not (flag h)) h ≡ not (flag h)
set_flag_self flag h = ground arith

still_waits :
    (flag : ℕ → Bool) (h : ℕ) (hs : List ℕ) (t : ℕ) (b : Bool)
    → flag h ≡ not b
    → released (record { handle = h; until = b }) (queue (h ∷ hs) flag t) ≡ false
unfolding released
still_waits flag h hs t b e = ground arith

let_go :
    (now : ℕ) (flag : ℕ → Bool) (h : ℕ) (hs : List ℕ) (t : ℕ) (b : Bool)
    → flag h ≡ not b
    → released (record { handle = h; until = b }) (turns now 1 (queue (h ∷ hs) flag t)) ≡ true
unfolding released turns
let_go now flag h hs t b e = ground arith

-- A thread at the front that yields goes to the back, and waits until its flag has its value
-- again. Once the others have had a turn each it is at the front again and still waits, and the
-- next turn lets it go.
pub yield_turn :
    (now later h : ℕ) (hs : List ℕ) (flag : ℕ → Bool) (time : ℕ)
    → IsDistinct (h ∷ hs)
    → let s = queue (h ∷ hs) flag time in
      let (s', w) = thread_sched_yield now false s in
      let s'' = turns later (length hs) s' in
      let wait : Wait = record { handle = h; until = flag h } in
      (w ≡ some wait)
      × (s''.sched_handles ≡ h ∷ hs)
      × (released wait s'' ≡ false)
      × (released wait (turns later 1 s'') ≡ true)
unfolding thread_sched_yield
yield_turn now later h hs flag time d =
    let flag' = set_flag flag h (not (flag h)) in
    let wait : Wait = record { handle = h; until = flag h } in
    let (t, e) = turns_lem later now hs (h ∷ []) flag' in
    let back : toggled flag' hs h ≡ not (flag h) =
      toggled_other flag' hs h d.0 ∙ set_flag_self flag h in
    (
      refl,
      ap (λ s. s.sched_handles) e,
      ap (released wait) e ∙ still_waits (toggled flag' hs) h hs t (flag h) back,
      ap (λ s. released wait (turns later 1 s)) e
          ∙ let_go later (toggled flag' hs) h hs t (flag h) back,
    )

empty_or_not : (hs : List ℕ) → (hs ≡ []) ⊎ ((h : ℕ) × (t : List ℕ) × (hs ≡ h ∷ t))
empty_or_not [] = inl refl
empty_or_not (h ∷ hs) = inr (h, hs, refl)

share_bound : (slice n : ℕ) → 0 < n → slice < (slice / n + 1) * n
share_bound slice n p = omega (arith, div-add-mod slice n, mod-lt slice p)

-- Each thread is given an equal share of the slice, rounded down; with no thread the call throws.
pub time_slice_lem :
    (s : Scheduler)
    → ((s.sched_handles ≡ []) × (thread_sched_time_slice s ≡ thrown))
      ⊎ ((share : ℕ) × (thread_sched_time_slice s ≡ ok share)
          × (share * length s.sched_handles ≤ time_slice)
          × (time_slice < (share + 1) * length s.sched_handles))
unfolding thread_sched_time_slice
time_slice_lem s = elim (empty_or_not s.sched_handles) [
  | inl e ↦ inl (e, rw e)
  | inr (h, hs, e) ↦ inr (
    time_slice / length (h ∷ hs),
    rw e,
    rw e (omega (arith, div-add-mod time_slice (length (h ∷ hs)))),
    rw e (share_bound time_slice (length (h ∷ hs)) (omega arith)),
  )
]
