-- ===== src/Context/Peers/Members.antt =====
-- The members of a peer table, and tables in which no peer stands twice.
use stochastic_scheduler_con.Prelude.{
  ◌≡◌, refl, sym, ◌∙◌, true, false, ◌||◌, List, [], ◌∷◌, ◌++◌, subst, arith, Bool-cases, inl, inr,
  ◌⊎◌,
}
use stochastic_scheduler_con.Context.Peers.{Remote, same_peer, is_peer, add_peer}

pub same_peer_comm : (p q : Remote) → same_peer p q ≡ same_peer q p
unfolding same_peer
same_peer_comm p q = ground arith

same_peer_self : (p : Remote) → same_peer p p ≡ true
unfolding same_peer
same_peer_self p = ground arith

same_peer_trans : (p q r : Remote) → same_peer p q ≡ true → same_peer p r ≡ same_peer q r
unfolding same_peer
same_peer_trans p q r h = ground arith

pub is_peer-append :
    (ps qs : List Remote) (q : Remote) → is_peer (ps ++ qs) q ≡ (is_peer ps q || is_peer qs q)
unfolding is_peer
is_peer-append [] qs q = refl
is_peer-append (p ∷ ps) qs q = ground (arith, is_peer-append ps qs q)

is_peer-same :
    (ps : List Remote) (p q : Remote) → same_peer p q ≡ true → is_peer ps p ≡ is_peer ps q
unfolding is_peer
is_peer-same [] p q h = refl
is_peer-same (r ∷ ps) p q h =
    ground (
      arith,
      is_peer-same ps p q h,
      same_peer_trans p q r h,
      same_peer_comm r p,
      same_peer_comm r q,
    )

known_peer :
    (ps : List Remote) (p q : Remote)
    → is_peer ps p ≡ true
    → is_peer ps q ≡ (is_peer ps q || same_peer p q)
known_peer ps p q h = ground (arith, is_peer-same ps p q)

last_peer :
    (ps : List Remote) (p q : Remote)
    → (is_peer ps q || is_peer (p ∷ []) q) ≡ (is_peer ps q || same_peer p q)
unfolding is_peer
last_peer ps p q = ground arith

pub is_peer-add_peer :
    (ps : List Remote) (p q : Remote) → is_peer (add_peer ps p) q ≡ (is_peer ps q || same_peer p q)
unfolding add_peer
is_peer-add_peer ps p q = elim (Bool-cases (is_peer ps p)) [
  | inl e ↦ rw e (known_peer ps p q e)
  | inr e ↦ rw e (is_peer-append ps (p ∷ []) q ∙ last_peer ps p q)
]

-- No two peers of the table are the same.
abbrev pub IsTable : List Remote → Type 0
IsTable [] = Unit
IsTable (p ∷ ps) = (is_peer ps p ≡ false) × IsTable ps

IsTable-append :
    (ps : List Remote) (p : Remote) → IsTable ps → is_peer ps p ≡ false → IsTable (ps ++ p ∷ [])
unfolding is_peer
IsTable-append [] p h e = (refl, tt)
IsTable-append (q ∷ ps) p h e = (
  ground (arith, is_peer-append ps (p ∷ []) q, same_peer_comm p q, h.0),
  IsTable-append ps p h.1 (ground arith),
)

pub IsTable-add_peer : (ps : List Remote) (p : Remote) → IsTable ps → IsTable (add_peer ps p)
unfolding add_peer
IsTable-add_peer ps p h = elim (Bool-cases (is_peer ps p)) [
  | inl e ↦ rw e h
  | inr e ↦ rw e (IsTable-append ps p h e)
]

-- Membership, by the ports and the addresses.
abbrev pub IsIn : Remote → List Remote → Type 0
IsIn q [] = ⊥
IsIn q (p ∷ ps) = (q ≡ p) ⊎ IsIn q ps

-- No peer stands in the list twice.
abbrev pub IsDistinct : List Remote → Type 0
IsDistinct [] = Unit
IsDistinct (p ∷ ps) = (¬ IsIn p ps) × IsDistinct ps

same_peer-eq : (p q : Remote) → same_peer p q ≡ true → q ≡ p
unfolding same_peer
same_peer-eq p q h =
    let port : q.port ≡ p.port = ground arith in
    let addr : q.addr ≡ p.addr = ground arith in cc (port, addr)

pub is_peer-IsIn : (ps : List Remote) (q : Remote) → is_peer ps q ≡ true → IsIn q ps
unfolding is_peer
is_peer-IsIn [] q h = absurd (cc h)
is_peer-IsIn (p ∷ ps) q h = elim (Bool-cases (same_peer p q)) [
  | inl e ↦ inl (same_peer-eq p q e)
  | inr e ↦ inr (is_peer-IsIn ps q (ground arith))
]

pub IsIn-is_peer : (ps : List Remote) (q : Remote) → IsIn q ps → is_peer ps q ≡ true
unfolding is_peer
IsIn-is_peer [] q h = absurd h
IsIn-is_peer (p ∷ ps) q (inl e) =
    let f : same_peer p q ≡ true = subst (λ r. same_peer p r ≡ true) (sym e) (same_peer_self p) in
    ground (arith, f)
IsIn-is_peer (p ∷ ps) q (inr h) = ground (arith, IsIn-is_peer ps q h)

pub IsTable-IsDistinct : (ps : List Remote) → IsTable ps → IsDistinct ps
IsTable-IsDistinct [] h = tt
IsTable-IsDistinct (p ∷ ps) h =
    ((λ i. absurd (ground (arith, IsIn-is_peer ps p i, h.0))), IsTable-IsDistinct ps h.1)

pub IsDistinct-IsTable : (ps : List Remote) → IsDistinct ps → IsTable ps
IsDistinct-IsTable [] h = tt
IsDistinct-IsTable (p ∷ ps) h = (
  elim (Bool-cases (is_peer ps p)) [ inl e ↦ absurd (h.0 (is_peer-IsIn ps p e)) | inr e ↦ e ],
  IsDistinct-IsTable ps h.1,
)
