-- ===== src/Http/Chunk/Stream.antt =====
-- operator>> of HttpChunk over a stream that arrives in pieces.
use stochastic_scheduler_con.Prelude.{
  ℕ, ◌≡◌, ◌⊎◌, inl, inr, refl, true, false, Option, none, some, [], ◌∷◌, ◌++◌, Bytes, arith, sym,
  ◌∙◌, Bool-cases, Option-cases,
}
use stochastic_scheduler_con.Http.Chunk.{HttpChunk, step, read}

pub read-step :
    (chunk : HttpChunk) (c : ℕ) (cs : Bytes) {chunk' : HttpChunk}
    → chunk.chunk_complete ≡ false
    → step chunk c ≡ some chunk'
    → read chunk (c ∷ cs) ≡ read chunk' cs
unfolding read
read-step chunk c cs h e = rw (h, read, e)

pub read_complete :
    (chunk : HttpChunk) (cs : Bytes)
    → chunk.chunk_complete ≡ true
    → read chunk cs ≡ some (chunk, cs)
unfolding read
read_complete chunk [] h = refl
read_complete chunk (c ∷ cs) h = ground arith

read-fails :
    (chunk : HttpChunk) (c : ℕ) (cs : Bytes)
    → chunk.chunk_complete ≡ false
    → step chunk c ≡ none
    → read chunk (c ∷ cs) ≡ none
unfolding read
read-fails chunk c cs h e = rw (h, read, e)

-- What operator>> does next with the bytes that follow.
abbrev pub resume : Option (HttpChunk × Bytes) → Bytes → Option (HttpChunk × Bytes)
resume none ys = none
resume (some (chunk, rest)) ys = read chunk (rest ++ ys)

-- Reading two pieces one after the other gives the chunk, the rest and the failures of reading
-- them as one.
pub read_chunk-append :
    (chunk : HttpChunk) (xs ys : Bytes) → read chunk (xs ++ ys) ≡ resume (read chunk xs) ys
read_chunk-append chunk [] ys = unfold read in refl
read_chunk-append chunk (x ∷ xs) ys = elim (Bool-cases chunk.chunk_complete) [
  | inl e ↦ rw (read_complete chunk (x ∷ xs) e)
  | inr e ↦ elim (Option-cases (step chunk x)) [
    | inl f ↦ rw (read-fails chunk x xs e f, read-fails chunk x (xs ++ ys) e f)
    | inr (chunk', f) ↦
        rw (read-step chunk x xs e f, read-step chunk x (xs ++ ys) e f)
          (read_chunk-append chunk' xs ys)
  ]
]

-- operator>> stops before the end of the buffer only at a complete chunk.
pub read_chunk_stops :
    (chunk : HttpChunk) (cs : Bytes) (chunk' : HttpChunk) (rest : Bytes)
    → read chunk cs ≡ some (chunk', rest)
    → (rest ≡ []) ⊎ (chunk'.chunk_complete ≡ true)
read_chunk_stops chunk [] chunk' rest h = inl (unfold read in ground arith)
read_chunk_stops chunk (c ∷ cs) chunk' rest h = elim (Bool-cases chunk.chunk_complete) [
  | inl e ↦ inr (ground (arith, read_complete chunk (c ∷ cs) e))
  | inr e ↦ elim (Option-cases (step chunk c)) [
    | inl f ↦ absurd (ground (arith, read-fails chunk c cs e f))
    | inr (next, f) ↦ read_chunk_stops next cs chunk' rest (sym (read-step chunk c cs e f) ∙ h)
  ]
]
