-- ===== src/Http/Message/Validity.antt =====
-- The headers and chunks that a message holds agree with its counters, so that no round of the
-- parsers indexes out of range.
use stochastic_scheduler_con.Prelude.{
  ℕ, zero, suc, ◌+◌, ◌<◌, ◌≤◌, ◌≡◌, ◌⊎◌, inl, inr, refl, sym, ap, ◌∙◌, Bool, true, false, some,
  List, [], ◌∷◌, ◌++◌, arith, if◌then◌else◌, length, get_elem?, set, length-append, Bytes,
  Bool-cases, Option-cases,
}
use stochastic_scheduler_con.Prelude.Outcome.{Outcome, ok, thrown}
use stochastic_scheduler_con.BigNum.Print.{of_dec}
use stochastic_scheduler_con.BigNum.{eq, ne}
use stochastic_scheduler_con.Http.Chunk
use stochastic_scheduler_con.Http.Chunk.{HttpChunk, empty_chunk}
use stochastic_scheduler_con.Http.Header
use stochastic_scheduler_con.Http.Header.{HttpHeader, empty_header}
use stochastic_scheduler_con.Manifest.Index.{get_elem?-append, get_elem?_of_lt}
use stochastic_scheduler_con.Http.Message.{
  Message, empty_message, begin, is_content_length, find_content_length, header_done, header_round,
  give_size, chunk_done, chunk_round,
}

-- A header before the next one gives the length of the content.
abbrev pub HasLength : Message → Type 0
HasLength m =
    (i : ℕ) × (h : HttpHeader) × (i < m.next_header)
    × (get_elem? m.headers i ≡ some h)
    × (is_content_length h ≡ true)

pub record IsValid (m : Message) : Type 0 where
  pub some_header : 0 < m.num_headers
  pub headers_length : length m.headers ≡ m.num_headers
  pub chunks_length : length m.chunks ≡ m.num_chunks
  pub header_le : m.next_header ≤ m.num_headers
  pub chunk_le : m.next_chunk ≤ m.num_chunks
  pub sized : m.not_chunked_transfer ≡ true → HasLength m

pub begin-IsValid : IsValid (begin empty_message)
unfolding begin
begin-IsValid = record {
  some_header = omega arith;
  headers_length = refl;
  chunks_length = refl;
  header_le = omega arith;
  chunk_le = omega arith;
  sized = λ h. absurd (cc h);
}

module _ {A : Type 0} where
  length-set : (xs : List A) (i : ℕ) (a : A) → length (set xs i a) ≡ length xs
  length-set [] i a = refl
  length-set (x ∷ xs) zero a = refl
  length-set (x ∷ xs) (suc i) a = omega (arith, length-set xs i a)

  set_self : (xs : List A) (i : ℕ) (a : A) → i < length xs → get_elem? (set xs i a) i ≡ some a
  set_self [] i a l = absurd (omega arith)
  set_self (x ∷ xs) zero a l = refl
  set_self (x ∷ xs) (suc i) a l = set_self xs i a (omega arith)

  set_other : (xs : List A) (i k : ℕ) (a : A) → k < i → get_elem? (set xs i a) k ≡ get_elem? xs k
  set_other [] i k a l = refl
  set_other (x ∷ xs) zero k a l = absurd (omega arith)
  set_other (x ∷ xs) (suc i) zero a l = refl
  set_other (x ∷ xs) (suc i) (suc k) a l = set_other xs i k a (omega arith)

found_length :
    (hs : List HttpHeader) (i : ℕ) (h : HttpHeader)
    → get_elem? hs i ≡ some h
    → is_content_length h ≡ true
    → (it : HttpHeader) × (find_content_length hs ≡ some it)
unfolding find_content_length
found_length [] i h e c = absurd (cc)
found_length (x ∷ xs) zero h e c = elim (Bool-cases (is_content_length x)) [
  | inl f ↦ (x, ap (λ b. if b then some x else find_content_length xs) f)
  | inr f ↦ let same : x ≡ h = cc in absurd (cc (ap is_content_length same))
]
found_length (x ∷ xs) (suc k) h e c = elim (Bool-cases (is_content_length x)) [
  | inl f ↦ (x, ap (λ b. if b then some x else find_content_length xs) f)
  | inr f ↦
      let (it, g) = found_length xs k h e c in
      (it, ap (λ b. if b then some x else find_content_length xs) f ∙ g)
]

-- A header is replaced by what has been read of it.
set_header-IsValid :
    (m : Message) (h : HttpHeader)
    → IsValid m
    → IsValid (record m { headers = set m.headers m.next_header h })
set_header-IsValid m h v = record {
  some_header = v.some_header;
  headers_length = length-set m.headers m.next_header h ∙ v.headers_length;
  chunks_length = v.chunks_length;
  header_le = v.header_le;
  chunk_le = v.chunk_le;
  sized = λ n.
      let (i, x, l, e, c) = v.sized n in (i, x, l, set_other m.headers m.next_header i h l ∙ e, c);
}

kept :
    (m : Message) (h : HttpHeader) (i : ℕ) (x : HttpHeader)
    → get_elem? m.headers i ≡ some x
    → get_elem? (header_done m h).headers i ≡ some x
unfolding header_done
kept m h i x e =
    elim h.not_last
      as (λ b. get_elem? (if b then m.headers ++ empty_header ∷ [] else m.headers) i ≡ some x) [
        | true ↦ get_elem?-append m.headers (empty_header ∷ []) i x e
        | false ↦ e
      ]

done_length :
    (m : Message) (h : HttpHeader)
    → length m.headers ≡ m.num_headers
    → length (header_done m h).headers ≡ (header_done m h).num_headers
unfolding header_done
done_length m h e =
    elim h.not_last
      as (λ b.
        length (if b then m.headers ++ empty_header ∷ [] else m.headers)
        ≡ (if b then m.num_headers + 1 else m.num_headers)) [
          | true ↦ omega (arith, length-append m.headers (empty_header ∷ []), e)
          | false ↦ e
        ]

done_le :
    (m : Message) (h : HttpHeader)
    → m.next_header < m.num_headers
    → (header_done m h).next_header ≤ (header_done m h).num_headers
unfolding header_done
done_le m h l = ground (arith, l)

done_next : (m : Message) (h : HttpHeader) → (header_done m h).next_header ≡ m.next_header + 1
unfolding header_done
done_next m h = refl

-- The parts of a message after a header that is complete.
header_done-HasLength :
    (m : Message) (h : HttpHeader)
    → IsValid m
    → get_elem? m.headers m.next_header ≡ some h
    → (header_done m h).not_chunked_transfer ≡ true
    → HasLength (header_done m h)
unfolding header_done
header_done-HasLength m h v e n = elim (Bool-cases (is_content_length h)) [
  | inl c ↦ (m.next_header, h, omega arith, kept m h m.next_header h e, c)
  | inr c ↦
      let (i, x, l, f, d) =
        v.sized (sym (ap (λ b. if b then true else m.not_chunked_transfer) c) ∙ n) in
      (i, x, omega (arith, l), kept m h i x f, d)
]

header_done-IsValid :
    (m : Message) (h : HttpHeader)
    → IsValid m
    → get_elem? m.headers m.next_header ≡ some h
    → m.next_header < m.num_headers
    → IsValid (header_done m h)
header_done-IsValid m h v e l = record {
  some_header = omega (arith, done_le m h l, done_next m h);
  headers_length = done_length m h v.headers_length;
  chunks_length = unfold header_done in v.chunks_length;
  header_le = done_le m h l;
  chunk_le = unfold header_done in v.chunk_le;
  sized = header_done-HasLength m h v e;
}

-- A round at a header always succeeds, and leaves the message valid.
pub header_round-IsValid :
    (m : Message) (bytes : Bytes)
    → IsValid m
    → m.next_header < m.num_headers
    → (r : Message × Bytes) × (header_round m bytes ≡ ok r) × IsValid r.0
unfolding header_round
header_round-IsValid m bytes v l =
    let (h₀, e) = get_elem?_of_lt m.headers m.next_header (omega (arith, l, v.headers_length)) in
    let h = (Header.read h₀ bytes).0 in
    let rest = (Header.read h₀ bytes).1 in
    let m' = record m { headers = set m.headers m.next_header h } in
    let s = set_header-IsValid m h v in
    let here = set_self m.headers m.next_header h (omega (arith, l, v.headers_length)) in
    (
      (if h.header_complete then header_done m' h else m', rest),
      rw e refl,
      elim h.header_complete as (λ b. IsValid (if b then header_done m' h else m')) [
        | true ↦ header_done-IsValid m' h s here l
        | false ↦ s
      ],
    )

-- A chunk is replaced by what has been read of it, and perhaps the counter moves.
set_chunk-IsValid :
    (m : Message) (c : HttpChunk) (k : ℕ)
    → IsValid m
    → k ≤ m.num_chunks
    → IsValid (record m { chunks = set m.chunks m.next_chunk c; next_chunk = k })
set_chunk-IsValid m c k v l = record {
  some_header = v.some_header;
  headers_length = v.headers_length;
  chunks_length = length-set m.chunks m.next_chunk c ∙ v.chunks_length;
  header_le = v.header_le;
  chunk_le = l;
  sized = v.sized;
}

length-chunk_done :
    (m : Message) (c : HttpChunk)
    → length m.chunks ≡ m.num_chunks
    → length (chunk_done m c).chunks ≡ (chunk_done m c).num_chunks
unfolding chunk_done
length-chunk_done m c e =
    elim (ne c.chunk_size (0 ∷ []))
      as (λ b.
        length (if b then m.chunks ++ empty_chunk ∷ [] else m.chunks)
        ≡ (if b then m.num_chunks + 1 else m.num_chunks)) [
          | true ↦ omega (arith, length-append m.chunks (empty_chunk ∷ []), e)
          | false ↦ e
        ]

chunk_done_le :
    (m : Message) (c : HttpChunk)
    → m.next_chunk < m.num_chunks
    → (chunk_done m c).next_chunk ≤ (chunk_done m c).num_chunks
unfolding chunk_done
chunk_done_le m c l = ground (arith, l)

chunk_done-IsValid :
    (m : Message) (c : HttpChunk)
    → IsValid m
    → m.next_chunk < m.num_chunks
    → IsValid (chunk_done m c)
chunk_done-IsValid m c v l = record {
  some_header = unfold chunk_done in v.some_header;
  headers_length = unfold chunk_done in v.headers_length;
  chunks_length = length-chunk_done m c v.chunks_length;
  header_le = unfold chunk_done in v.header_le;
  chunk_le = chunk_done_le m c l;
  sized = unfold chunk_done in v.sized;
}

-- A call throws, or returns a value with a property.
abbrev pub Yields : {A : Type 0} → Outcome A → (A → Type 0) → Type 0
Yields {A} call P = (call ≡ thrown) ⊎ ((a : A) × (call ≡ ok a) × P a)

give_size_lem :
    (needs_size : HttpChunk → Bool) (m : Message) (c : HttpChunk)
    → HasLength m
    → Yields (give_size needs_size m c) (λ c'. Unit {0})
unfolding give_size
give_size_lem needs_size m c (i, h, l, e, d) =
    let (it, f) = found_length m.headers i h e d in
    elim (Bool-cases (needs_size c)) [
      | inl n ↦ elim (Option-cases (of_dec it.field_value)) [
        | inl g ↦ inl (ground arith)
        | inr (size, g) ↦ inr (
          record c {
            chunk_size = size;
            chunk_size_started = true;
            chunk_size_found = true;
            chunk_body_start = true;
          },
          ground arith,
          tt,
        )
      ]
      | inr n ↦ inr (c, ground arith, tt)
    ]

-- A round at a chunk throws or succeeds, and then leaves the message valid.
pub chunk_round-IsValid :
    (needs_size : HttpChunk → Bool) (m : Message) (bytes : Bytes)
    → IsValid m
    → m.next_chunk < m.num_chunks
    → Yields (chunk_round needs_size m bytes) (λ r. IsValid r.0)
unfolding chunk_round
chunk_round-IsValid needs_size m bytes v l =
    let (c, e) = get_elem?_of_lt m.chunks m.next_chunk (omega (arith, l, v.chunks_length)) in
    elim (Bool-cases m.not_chunked_transfer) [
      | inl n ↦ elim (give_size_lem needs_size m c (v.sized n)) [
        | inl g ↦ inl (ground arith)
        | inr (sized, g, _) ↦ elim (Option-cases (Chunk.read sized bytes)) [
          | inl r ↦ inl (ground arith)
          | inr (r, f) ↦ inr (
            (
              record m {
                chunks = set m.chunks m.next_chunk r.0;
                next_chunk =
                    if eq r.0.chunk_size r.0.received_bytes then m.num_chunks else m.next_chunk;
              },
              r.1,
            ),
            ground arith,
            set_chunk-IsValid m r.0 _ v (ground (arith, l)),
          )
        ]
      ]
      | inr n ↦ elim (Option-cases (Chunk.read c bytes)) [
        | inl r ↦ inl (ground arith)
        | inr (r, f) ↦
            let m' = record m { chunks = set m.chunks m.next_chunk r.0 } in
            let s = set_chunk-IsValid m r.0 m.next_chunk v v.chunk_le in
            inr (
              (if r.0.chunk_complete then chunk_done m' r.0 else m', r.1),
              ground arith,
              elim r.0.chunk_complete as (λ b. IsValid (if b then chunk_done m' r.0 else m')) [
                | true ↦ chunk_done-IsValid m' r.0 s l
                | false ↦ s
              ],
            )
      ]
    ]
