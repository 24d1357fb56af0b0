-- ===== src/Threads/Pipes.antt =====
-- The loops of thread-controls.cpp over the pipes of a subprocess. The results of the system
-- calls are a list, which the loop takes one by one; where it is empty the call still blocks.
use stochastic_scheduler_con.Prelude.{
  All, ◌<◌, ◌≤◌, ℕ, zero, suc, ◌+◌, ◌≤◌, ◌≡◌, ◌≢◌, inl, inr, ◌⊎◌, Bool-cases, Option-cases,
  length-drop, refl, sym, ap, ◌∙◌, Bool, true, false, Option, none, some, List, [], ◌∷◌, ◌++◌,
  append_assoc, append-nil, arith, length, take, drop, take-append-drop, drop-nil, drop-drop, ltb,
  if◌then◌else◌, is_empty, Bytes, codes, bytes_eq,
}
use stochastic_scheduler_con.Prelude.Outcome.{
  Outcome, ok, thrown, out_of_fuel, ◌>>=◌, or_throw, >>=-eq-ok,
}
use stochastic_scheduler_con.Manifest.{Cells, write, is_incomplete}

-- What read() gives: EINTR, another error, the end of the file, or bytes.
pub data ReadResult : Type 0 where
  interrupted failed eof : ReadResult
  bytes : Bytes → ReadResult

-- wait_for_launcher
unfoldable pub wait_for_launcher : List ReadResult → Outcome Bool
wait_for_launcher [] = out_of_fuel
wait_for_launcher (interrupted ∷ rs) = wait_for_launcher rs
wait_for_launcher (failed ∷ rs) = thrown
wait_for_launcher (eof ∷ rs) = thrown
wait_for_launcher (bytes b ∷ rs) = ok true

-- The loop of read_result_from_subprocess.
unfoldable pub read_loop : Bytes → List ReadResult → Outcome Bytes
read_loop val [] = out_of_fuel
read_loop val (interrupted ∷ rs) = read_loop val rs
read_loop val (failed ∷ rs) = thrown
read_loop val (eof ∷ rs) = ok val
read_loop val (bytes b ∷ rs) = read_loop (val ++ b) rs

-- What it does with the bytes: the value of the relation is written, unless they are "null".
unfoldable pub store_result : Cells → ℕ → Bytes → Cells
store_result cell relation val =
    if is_empty val
    then cell
    else if bytes_eq val (codes "null")
    then cell
    else write cell relation (record (cell relation) { value = val })

-- read_result_from_subprocess
unfoldable pub read_result_from_subprocess : Cells → ℕ → List ReadResult → Outcome (Bool × Cells)
unfolding store_result
read_result_from_subprocess cell relation rs =
    read_loop [] rs >>= λ val. ok (true, store_result cell relation val)

-- What write() gives: no bytes and no error or EINTR, another error, or a number of bytes.
pub data WriteResult : Type 0 where
  nothing refused : WriteResult
  wrote : ℕ → WriteResult

-- The loop of write_params_to_subprocess; `pipe` is what the other end has to read.
unfoldable pub write_loop : Bytes → ℕ → Bytes → List WriteResult → Outcome Bytes
write_loop params bytes_written pipe [] = out_of_fuel
write_loop params bytes_written pipe (refused ∷ rs) = thrown
write_loop params bytes_written pipe (nothing ∷ rs) =
    let rest = write_loop params bytes_written pipe rs in
    if ltb bytes_written (length params) then rest else ok pipe
write_loop params bytes_written pipe (wrote n ∷ rs) =
    let pipe' = pipe ++ take n (drop bytes_written params) in
    let rest = write_loop params (bytes_written + n) pipe' rs in
    if ltb (bytes_written + n) (length params) then rest else ok pipe'

-- The values of the dependencies, or none where one is missing.
unfoldable pub supplied_values : Cells → List ℕ → Option (List (Bytes × Bytes))
supplied_values cell [] = some []
supplied_values cell (d ∷ ds) =
    let rest = supplied_values cell ds in
    if is_incomplete (cell d).value
    then none
    else elim rest [ none ↦ none | some vs ↦ some (((cell d).key, (cell d).value) ∷ vs) ]

-- write_params_to_subprocess; `object_text` is what boost::json makes of the keys and values, and
-- none where it throws.
module _ (object_text : List (Bytes × Bytes) → Option Bytes) where
  unfoldable pub params_of : Cells → List ℕ → Bytes → Outcome (Option Bytes)
  params_of cell [] params = ok (some (params ++ codes "\n"))
  params_of cell (d ∷ ds) params = elim (supplied_values cell (d ∷ ds)) [
    | none ↦ ok none
    | some vs ↦ or_throw (object_text vs) >>= λ text. ok (some (text ++ codes "\n"))
  ]

  unfoldable pub write_params_to_subprocess :
      Cells → ℕ → Bytes → Bytes → List WriteResult → Outcome (Bool × Bytes)
  write_params_to_subprocess cell relation params pipe rs =
      params_of cell (cell relation).dependencies params >>= λ text. elim text [
        | none ↦ ok (false, pipe)
        | some t ↦ write_loop t 0 pipe rs >>= λ pipe'. ok (true, pipe')
      ]

drop-all : (n : ℕ) (xs : Bytes) → length xs ≤ n → drop n xs ≡ []
drop-all n [] h = drop-nil n
drop-all zero (x ∷ xs) h = absurd (omega arith)
drop-all (suc n) (x ∷ xs) h = drop-all n xs (omega arith)

take-all : (n : ℕ) (xs : Bytes) → length xs ≤ n → take n xs ≡ xs
take-all n xs h =
    sym (append-nil (take n xs))
    ∙ ap (◌++◌ (take n xs)) (sym (drop-all n xs h))
    ∙ take-append-drop n xs

ok-injective {ℓ} : {A : Type ℓ} {a b : A} → ok a ≡ ok b → a ≡ b
ok-injective h = cc

le_of_not_lt : (a b : ℕ) → ltb a b ≡ false → b ≤ a
le_of_not_lt a b h = ground arith

-- However the bytes are split over the calls, a write that returns has written them all, once
-- and in order.
pub write_loop_lem :
    (params : Bytes) (written : ℕ) (pipe : Bytes) (rs : List WriteResult) (pipe' : Bytes)
    → write_loop params written pipe rs ≡ ok pipe'
    → pipe' ≡ pipe ++ drop written params
unfolding write_loop
write_loop_lem params written pipe [] pipe' h = cc
write_loop_lem params written pipe (refused ∷ rs) pipe' h = cc
write_loop_lem params written pipe (nothing ∷ rs) pipe' h =
    elim (Bool-cases (ltb written (length params))) [
      | inl b ↦ write_loop_lem params written pipe rs pipe' (rw b at h)
      | inr b ↦
          let e : pipe ≡ pipe' = ok-injective (rw b at h) in
          sym e
          ∙ sym (append-nil pipe)
          ∙ ap (◌++◌ pipe) (sym (drop-all written params (ground arith)))
    ]
write_loop_lem params written pipe (wrote n ∷ rs) pipe' h =
    elim (Bool-cases (ltb (written + n) (length params))) [
      | inl b ↦
          write_loop_lem params (written + n) (pipe ++ take n (drop written params)) rs pipe'
            (rw b at h)
          ∙ append_assoc pipe (take n (drop written params)) (drop (written + n) params)
          ∙ ap (◌++◌ pipe) (
              ap (◌++◌ (take n (drop written params))) (drop-drop written n params)
              ∙ take-append-drop n (drop written params))
      | inr b ↦
          let e : pipe ++ take n (drop written params) ≡ pipe' = ok-injective (rw b at h) in
          sym e
          ∙ ap (◌++◌ pipe) (
              take-all n (drop written params) (
                omega (
                  arith,
                  length-drop written params,
                  le_of_not_lt (written + n) (length params) b,
                )))
    ]

-- A call of write() that takes at least one byte.
abbrev pub IsWrite : WriteResult → Type 0
IsWrite nothing = ⊥
IsWrite refused = ⊥
IsWrite (wrote n) = 0 < n

write_loop-returns :
    (params : Bytes) (written : ℕ) (pipe : Bytes) (rs : List WriteResult)
    → All IsWrite rs
    → 0 < length rs
    → length params ≤ written + length rs
    → (pipe' : Bytes) × (write_loop params written pipe rs ≡ ok pipe')
unfolding write_loop
write_loop-returns params written pipe [] h z l = absurd (omega arith)
write_loop-returns params written pipe (nothing ∷ rs) h z l = absurd h.0
write_loop-returns params written pipe (refused ∷ rs) h z l = absurd h.0
write_loop-returns params written pipe (wrote n ∷ rs) h z l =
    let pipe₁ = pipe ++ take n (drop written params) in
    elim (Bool-cases (ltb (written + n) (length params))) [
      | inl b ↦
          let room : written + n < length params = ground arith in
          let (pipe', e) =
            write_loop-returns params (written + n) pipe₁ rs h.1 (omega (arith, l, room, h.0))
              (omega (arith, l, h.0)) in
          (pipe', rw b e)
      | inr b ↦ (pipe₁, rw b refl)
    ]

-- Where each call of write() takes at least one byte and there are as many calls as bytes that
-- are left, and at least one, the loop of write_params_to_subprocess returns and has written all
-- of these, in order.
pub write_loop_total :
    (params : Bytes) (written : ℕ) (pipe : Bytes) (rs : List WriteResult)
    → All IsWrite rs
    → 0 < length rs
    → length params ≤ written + length rs
    → write_loop params written pipe rs ≡ ok (pipe ++ drop written params)
write_loop_total params written pipe rs h z l =
    let (pipe', e) = write_loop-returns params written pipe rs h z l in
    e ∙ ap ok (write_loop_lem params written pipe rs pipe' e)

some-ne-none : {t : Bytes} → some t ≢ none
some-ne-none h = cc

params_of-none :
    (object_text : List (Bytes × Bytes) → Option Bytes) (cell : Cells) (deps : List ℕ)
    → (params : Bytes) → params_of object_text cell deps params ≡ ok none
    → supplied_values cell deps ≡ none
unfolding params_of
params_of-none object_text cell [] params h = ground arith
params_of-none object_text cell (d ∷ ds) params h =
    elim (Option-cases (supplied_values cell (d ∷ ds))) [
      | inl e ↦ e
      | inr (vs, e) ↦
          let (text, a, b) = >>=-eq-ok (or_throw (object_text vs)) _ (rw (e, params_of) at h) in
          absurd (some-ne-none (ok-injective b))
    ]

-- Where write_params_to_subprocess returns true, the pipe has got one line: the parameters of an
-- action with no dependencies, and otherwise the text of the keys and values of these, none of
-- which is missing. Where it returns false, a value is missing and nothing has been written.
pub write_params_lem :
    (object_text : List (Bytes × Bytes) → Option Bytes) (cell : Cells) (relation : ℕ)
    → (params pipe : Bytes) (rs : List WriteResult) (done : Bool) (pipe' : Bytes)
    → write_params_to_subprocess object_text cell relation params pipe rs ≡ ok (done, pipe')
    → ((done ≡ false) × (pipe' ≡ pipe) × (supplied_values cell (cell relation).dependencies ≡ none))
      ⊎ ((done ≡ true)
          × (text : Bytes) × (params_of object_text cell (cell relation).dependencies params
              ≡ ok (some text))
          × (pipe' ≡ pipe ++ text))
unfolding write_params_to_subprocess
write_params_lem object_text cell relation params pipe rs done pipe' h =
    let deps = (cell relation).dependencies in
    let (text, a, k) = >>=-eq-ok (params_of object_text cell deps params) _ h in
    elim (Option-cases text) [
      | inl e ↦
          let same : ◌≡◌ {A = Outcome (Bool × Bytes)} (ok (false, pipe)) (ok (done, pipe')) =
            rw e at k in
          inl (
            ground (arith, ok-injective same),
            ground (arith, ok-injective same),
            params_of-none object_text cell deps params (a ∙ ap ok e),
          )
      | inr (t, e) ↦
          let (pipe'', b, c) = >>=-eq-ok (write_loop t 0 pipe rs) _ (rw e at k) in
          inr (
            ground (arith, ok-injective c),
            t,
            a ∙ ap ok e,
            (ground (arith, ok-injective c)) ∙ write_loop_lem t 0 pipe rs pipe'' b,
          )
    ]
