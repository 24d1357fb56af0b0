-- ===== src/Threads/Results.antt =====
-- What thread_continue makes of the answer of a subprocess.
use stochastic_scheduler_con.Prelude.{
  ℕ, ◌+◌, ◌≡◌, ◌≢◌, ◌⊎◌, inl, inr, refl, ap, ◌∙◌, true, false, Option, none, some, List, [], ◌∷◌,
  ◌++◌, map, append_assoc, append-nil, sym, arith, Bytes, Bool-cases,
}
use stochastic_scheduler_con.Prelude.Outcome.{ok}
use stochastic_scheduler_con.Manifest.{Cells, is_incomplete}
use stochastic_scheduler_con.Threads.Pipes.{
  ReadResult, interrupted, eof, bytes, read_result_from_subprocess, store_result, read_loop,
}
use stochastic_scheduler_con.Threads.Machine.{
  System, Process, finished, continue_at, thread_continue,
}

-- One call of read() before the end of the file: the bytes of a piece of the answer, or none where
-- it is interrupted.
abbrev pub read_of : Option Bytes → ReadResult
read_of none = interrupted
read_of (some b) = bytes b

-- The answer, by its pieces.
abbrev pub answer : List (Option Bytes) → Bytes
answer [] = []
answer (none ∷ pieces) = answer pieces
answer (some b ∷ pieces) = b ++ answer pieces

read_loop-pieces :
    (val : Bytes) (pieces : List (Option Bytes)) (rest : List ReadResult)
    → read_loop val (map read_of pieces ++ eof ∷ rest) ≡ ok (val ++ answer pieces)
unfolding read_loop
read_loop-pieces val [] rest = ap (λ (b : Bytes). ok b) (sym (append-nil val))
read_loop-pieces val (none ∷ pieces) rest = read_loop-pieces val pieces rest
read_loop-pieces val (some b ∷ pieces) rest =
    read_loop-pieces (val ++ b) pieces rest
    ∙ ap (λ (b : Bytes). ok b) (append_assoc val b (answer pieces))

store_result-keeps :
    (cell : Cells) (relation : ℕ) (val : Bytes)
    → is_incomplete val ≡ true
    → store_result cell relation val ≡ cell
unfolding store_result is_incomplete
store_result-keeps cell relation val h = ground arith

store_result_own :
    (cell : Cells) (relation : ℕ) (val : Bytes)
    → is_incomplete val ≡ false
    → (store_result cell relation val relation).value ≡ val
unfolding store_result is_incomplete
store_result_own cell relation val h = ground arith

store_result_other :
    (cell : Cells) (relation : ℕ) (val : Bytes) (r : ℕ)
    → r ≢ relation
    → store_result cell relation val r ≡ cell r
unfolding store_result
store_result_other cell relation val r n = ground arith

answered :
    (sys : System) (p : Process) (pieces : List (Option Bytes)) (rest : List ReadResult)
    → sys.reads ≡ map read_of pieces ++ eof ∷ rest
    → continue_at 6 sys p ≡ (
      record p {
        thread = record p.thread { state = p.thread.state + 1 };
        cell = store_result p.cell p.relation (answer pieces);
      },
      ok true,
    )
unfolding continue_at finished read_result_from_subprocess
answered sys p pieces rest r = rw (ap (read_loop []) r ∙ read_loop-pieces [] pieces rest) refl

-- A call of thread_continue in state 6, whose reads give an answer in any pieces, between which
-- they may be interrupted, and then the end of the file, returns true and is in state 7. An answer
-- that is empty or "null" leaves all relations as they are; any other becomes, as a whole and in
-- order, the value of the thread's relation, and leaves the other relations as they are.
pub thread_continue-answer :
    (sys : System) (p : Process) (pieces : List (Option Bytes)) (rest : List ReadResult) (other : ℕ)
    → p.thread.state ≡ 6
    → sys.reads ≡ map read_of pieces ++ eof ∷ rest
    → other ≢ p.relation
    → let (q, done) = thread_continue sys p in
      (done ≡ ok true)
      × (q.thread.state ≡ 7)
      × (((is_incomplete (answer pieces) ≡ true) × (q.cell ≡ p.cell))
          ⊎ ((is_incomplete (answer pieces) ≡ false)
              × ((q.cell p.relation).value ≡ answer pieces)
              × (q.cell other ≡ p.cell other)))
unfolding thread_continue
thread_continue-answer sys p pieces rest other e r n =
    let val = answer pieces in
    let f = ap (λ (n : ℕ). continue_at n sys p) e ∙ answered sys p pieces rest r in
    (
      ap (λ x. x.1) f,
      ap (λ x. x.0.thread.state) f ∙ ap (λ n. n + 1) e,
      elim (Bool-cases (is_incomplete val)) [
        | inl i ↦ inl (i, ap (λ x. x.0.cell) f ∙ store_result-keeps p.cell p.relation val i)
        | inr i ↦ inr (
          i,
          ap (λ x. (x.0.cell p.relation).value) f ∙ store_result_own p.cell p.relation val i,
          ap (λ x. x.0.cell other) f ∙ store_result_other p.cell p.relation val other n,
        )
      ],
    )
