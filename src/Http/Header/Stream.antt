-- ===== src/Http/Header/Stream.antt =====
-- operator>> of HttpHeader over a stream that arrives in pieces.
use stochastic_scheduler_con.Prelude.{
  ℕ, ◌≡◌, inl, inr, refl, true, false, [], ◌∷◌, ◌++◌, arith, Bytes, Bool-cases,
}
use stochastic_scheduler_con.Http.Header.{HttpHeader, step, read}

pub read-step :
    (header : HttpHeader) (c : ℕ) (cs : Bytes)
    → header.header_complete ≡ false
    → read header (c ∷ cs) ≡ read (step header c) cs
unfolding read
read-step header c cs h = ground arith

pub read_complete :
    (header : HttpHeader) (cs : Bytes)
    → header.header_complete ≡ true
    → read header cs ≡ (header, cs)
unfolding read
read_complete header [] h = refl
read_complete header (c ∷ cs) h = ground arith

-- What operator>> does next with the bytes that follow.
abbrev pub resume : HttpHeader × Bytes → Bytes → HttpHeader × Bytes
resume (header, rest) ys = read header (rest ++ ys)

-- Reading two pieces one after the other gives the header and the rest of reading them as one.
pub read_header-append :
    (header : HttpHeader) (xs ys : Bytes) → read header (xs ++ ys) ≡ resume (read header xs) ys
read_header-append header [] ys = unfold read in refl
read_header-append header (x ∷ xs) ys = elim (Bool-cases header.header_complete) [
  | inl e ↦ rw (read_complete header (x ∷ xs) e)
  | inr e ↦
      rw (read-step header x xs e, read-step header x (xs ++ ys) e)
        (read_header-append (step header x) xs ys)
]
