-- ===== src/Context/Peers/Merge.antt =====
-- merge_peer_addresses as the union of sets of peers, and the constructor's table.
use stochastic_scheduler_con.Prelude.{
  ℕ, ◌≡◌, refl, sym, ap, ◌∙◌, Bool, true, false, ◌||◌, Option, none, some, List, [], ◌∷◌, ◌++◌,
  subst, arith, if◌then◌else◌, append_assoc, append-nil, Bytes, Bool-cases, Option-cases, inl, inr,
  ◌⊎◌, ◌↔◌,
}
use stochastic_scheduler_con.Prelude.Outcome.{Outcome, ok, thrown}
use stochastic_scheduler_con.Context.Peers.{
  Remote, is_peer, add_peer, remote_of, merge_peer_addresses, constructor_remote_of, peer_table,
}
use stochastic_scheduler_con.Context.Peers.Members.{
  same_peer_comm, is_peer-append, is_peer-add_peer, IsTable, IsTable-add_peer, IsIn, IsDistinct,
  is_peer-IsIn, IsIn-is_peer, IsTable-IsDistinct, IsDistinct-IsTable,
}

module _ (inet_aton : Bytes → Option ℕ) where
  -- The peers of the texts up to the first that is refused, and whether there is none.
  unfoldable pub remotes_of : List Bytes → List Remote × Bool
  remotes_of [] = ([], true)
  remotes_of (rpeer ∷ rest) = elim (remote_of inet_aton rpeer) [
    | none ↦ ([], false)
    | some p ↦ (p ∷ (remotes_of rest).0, (remotes_of rest).1)
  ]

  abbrev pub how_it_ends : Bool → Outcome (Unit {0})
  how_it_ends b = if b then ok tt else thrown

  merge_none :
      (rpeer : Bytes) (rest : List Bytes) (peers : List Remote)
      → remote_of inet_aton rpeer ≡ none
      → merge_peer_addresses inet_aton (rpeer ∷ rest) peers ≡ (peers, thrown)
  unfolding merge_peer_addresses
  merge_none rpeer rest peers h = rw (merge_peer_addresses, h) refl

  merge_some :
      (rpeer : Bytes) (rest : List Bytes) (peers : List Remote) (p : Remote)
      → remote_of inet_aton rpeer ≡ some p
      → merge_peer_addresses inet_aton (rpeer ∷ rest) peers
        ≡ merge_peer_addresses inet_aton rest (add_peer peers p)
  unfolding merge_peer_addresses
  merge_some rpeer rest peers p h = rw (merge_peer_addresses, h) refl

  remotes_none :
      (rpeer : Bytes) (rest : List Bytes)
      → remote_of inet_aton rpeer ≡ none
      → remotes_of (rpeer ∷ rest) ≡ ([], false)
  unfolding remotes_of
  remotes_none rpeer rest h = rw (remotes_of, h) refl

  remotes_some :
      (rpeer : Bytes) (rest : List Bytes) (p : Remote)
      → remote_of inet_aton rpeer ≡ some p
      → remotes_of (rpeer ∷ rest) ≡ (p ∷ (remotes_of rest).0, (remotes_of rest).1)
  unfolding remotes_of
  remotes_some rpeer rest p h = rw (remotes_of, h) refl

  merge_ends :
      (rpeers : List Bytes) (peers : List Remote)
      → (merge_peer_addresses inet_aton rpeers peers).1 ≡ how_it_ends (remotes_of rpeers).1
  unfolding merge_peer_addresses remotes_of
  merge_ends [] peers = refl
  merge_ends (rpeer ∷ rest) peers = elim (Option-cases (remote_of inet_aton rpeer)) [
    | inl e ↦
        ap (λ r. r.1) (merge_none rpeer rest peers e)
        ∙ sym (ap (λ r. how_it_ends r.1) (remotes_none rpeer rest e))
    | inr (p, e) ↦
        ap (λ r. r.1) (merge_some rpeer rest peers p e)
        ∙ merge_ends rest (add_peer peers p)
        ∙ sym (ap (λ r. how_it_ends r.1) (remotes_some rpeer rest p e))
  ]

  merge_union :
      (rpeers : List Bytes) (peers : List Remote) (q : Remote)
      → is_peer (merge_peer_addresses inet_aton rpeers peers).0 q
        ≡ (is_peer peers q || is_peer (remotes_of rpeers).0 q)
  unfolding is_peer
  merge_union [] peers q = unfold merge_peer_addresses in unfold remotes_of in ground arith
  merge_union (rpeer ∷ rest) peers q = elim (Option-cases (remote_of inet_aton rpeer)) [
    | inl e ↦ rw (merge_none rpeer rest peers e, remotes_none rpeer rest e) (ground arith)
    | inr (p, e) ↦
        rw (merge_some rpeer rest peers p e, remotes_some rpeer rest p e)
          (ground (arith, merge_union rest (add_peer peers p) q, is_peer-add_peer peers p q))
  ]

  merge-IsTable :
      (rpeers : List Bytes) (peers : List Remote)
      → IsTable peers
      → IsTable (merge_peer_addresses inet_aton rpeers peers).0
  unfolding merge_peer_addresses
  merge-IsTable [] peers h = h
  merge-IsTable (rpeer ∷ rest) peers h = elim (Option-cases (remote_of inet_aton rpeer)) [
    | inl e ↦ rw (merge_none rpeer rest peers e) h
    | inr (p, e) ↦
        rw (merge_some rpeer rest peers p e)
          (merge-IsTable rest (add_peer peers p) (IsTable-add_peer peers p h))
  ]

  merge-IsIn :
      (rpeers : List Bytes) (peers : List Remote) (q : Remote)
      → IsIn q (merge_peer_addresses inet_aton rpeers peers).0
      → IsIn q peers ⊎ IsIn q (remotes_of rpeers).0
  merge-IsIn rpeers peers q h =
      let e =
        sym (merge_union rpeers peers q)
        ∙ IsIn-is_peer (merge_peer_addresses inet_aton rpeers peers).0 q h in
      elim (Bool-cases (is_peer peers q)) [
        | inl f ↦ inl (is_peer-IsIn peers q f)
        | inr f ↦ inr (is_peer-IsIn (remotes_of rpeers).0 q (ground (arith, e, f)))
      ]

  IsIn-merge :
      (rpeers : List Bytes) (peers : List Remote) (q : Remote)
      → IsIn q peers ⊎ IsIn q (remotes_of rpeers).0
      → IsIn q (merge_peer_addresses inet_aton rpeers peers).0
  IsIn-merge rpeers peers q h = is_peer-IsIn (merge_peer_addresses inet_aton rpeers peers).0 q (
      merge_union rpeers peers q ∙ elim h [
        | inl i ↦ ground (arith, IsIn-is_peer peers q i)
        | inr i ↦ ground (arith, IsIn-is_peer (remotes_of rpeers).0 q i)
      ])

  -- Of a table in which no peer stands twice: a peer, by its port and its address, is in the table
  -- after merge_peer_addresses just if it was in it before or is among the peers of the texts up
  -- to the first that is no peer; the call throws just where there is such a text, and no peer
  -- stands twice in the new table.
  pub merge_refines_union :
      (rpeers : List Bytes) (peers : List Remote) (q : Remote)
      → IsDistinct peers
      → (IsIn q (merge_peer_addresses inet_aton rpeers peers).0
          ↔ (IsIn q peers ⊎ IsIn q (remotes_of rpeers).0))
        × ((merge_peer_addresses inet_aton rpeers peers).1 ≡ how_it_ends (remotes_of rpeers).1)
        × IsDistinct (merge_peer_addresses inet_aton rpeers peers).0
  merge_refines_union rpeers peers q h = (
    (merge-IsIn rpeers peers q, IsIn-merge rpeers peers q),
    merge_ends rpeers peers,
    IsTable-IsDistinct (merge_peer_addresses inet_aton rpeers peers).0
        (merge-IsTable rpeers peers (IsDistinct-IsTable peers h)),
  )

  -- What the constructor makes of a text that merge_peer_addresses takes.
  constructor_remote_of_lem :
      (memory : ℕ) (peer : Bytes) (p : Remote)
      → remote_of inet_aton peer ≡ some p
      → constructor_remote_of inet_aton memory peer ≡ some p
  unfolding remote_of constructor_remote_of
  constructor_remote_of_lem memory peer p h = ground arith

  peer_table_step :
      (memory : ℕ) (peer : Bytes) (rest : List Bytes) (peers : List Remote) (p : Remote)
      → constructor_remote_of inet_aton memory peer ≡ some p
      → peer_table inet_aton memory (peer ∷ rest) peers
        ≡ peer_table inet_aton memory rest (peers ++ p ∷ [])
  unfolding peer_table
  peer_table_step memory peer rest peers p h = rw (peer_table, h) refl

  add_peer_new :
      (ps : List Remote) (p : Remote) → is_peer ps p ≡ false → add_peer ps p ≡ ps ++ p ∷ []
  unfolding add_peer
  add_peer_new ps p h = ground arith

  IsTable-new :
      (ps : List Remote) (p : Remote) (qs : List Remote)
      → IsTable (ps ++ p ∷ qs)
      → is_peer ps p ≡ false
  unfolding is_peer
  IsTable-new [] p qs h = refl
  IsTable-new (r ∷ ps) p qs h =
      ground (arith, IsTable-new ps p qs h.1, h.0, is_peer-append ps (p ∷ qs) r, same_peer_comm r p)

  both_tables :
      (memory : ℕ) (rpeers : List Bytes) (peers : List Remote)
      → (remotes_of rpeers).1 ≡ true
      → IsTable (peers ++ (remotes_of rpeers).0)
      → (merge_peer_addresses inet_aton rpeers peers ≡ (peers ++ (remotes_of rpeers).0, ok tt))
        × (peer_table inet_aton memory rpeers peers ≡ ok (peers ++ (remotes_of rpeers).0))
  unfolding merge_peer_addresses peer_table remotes_of
  both_tables memory [] peers h d =
      let e : peers ≡ peers ++ [] = sym (append-nil peers) in
      (ap (λ (ps : List Remote). (ps, ok (tt {0}))) e, ap (λ (ps : List Remote). ok ps) e)
  both_tables memory (rpeer ∷ rest) peers h d = elim (Option-cases (remote_of inet_aton rpeer)) [
    | inl e ↦ absurd (ground (arith, h, e))
    | inr (p, e) ↦
        let s = remotes_some rpeer rest p e in
        let d' : IsTable (peers ++ p ∷ (remotes_of rest).0) =
          subst (λ (r : List Remote × Bool). IsTable (peers ++ r.0)) s d in
        let new = add_peer_new peers p (IsTable-new peers p (remotes_of rest).0 d') in
        let shift = append_assoc peers (p ∷ []) (remotes_of rest).0 in
        let (a, b) =
          both_tables memory rest (peers ++ p ∷ [])
            (sym (ap (λ (r : List Remote × Bool). r.1) s) ∙ h) (subst IsTable (sym shift) d') in
        let same = shift ∙ ap (λ (r : List Remote × Bool). peers ++ r.0) (sym s) in
        (
          merge_some rpeer rest peers p e
              ∙ ap (merge_peer_addresses inet_aton rest) new
              ∙ a
              ∙ ap (λ (ps : List Remote). (ps, ok (tt {0}))) same,
          peer_table_step memory rpeer rest peers p (constructor_remote_of_lem memory rpeer p e)
              ∙ b
              ∙ ap (λ (ps : List Remote). ok ps) same,
        )
  ]

  pub peer_table-merge :
      (memory : ℕ) (rpeers : List Bytes)
      → (remotes_of rpeers).1 ≡ true
      → IsTable (remotes_of rpeers).0
      → (merge_peer_addresses inet_aton rpeers [] ≡ ((remotes_of rpeers).0, ok tt))
        × (peer_table inet_aton memory rpeers [] ≡ ok (remotes_of rpeers).0)
  peer_table-merge memory rpeers h d = both_tables memory rpeers [] h d

  -- From texts that all name peers by a port and an address, no two the same, the constructor
  -- builds the table that merge_peer_addresses makes of an empty one: these peers, in the order of
  -- the texts, whatever the memory that inet_aton fills in held before.
  pub constructor_refines_merge :
      (memory : ℕ) (rpeers : List Bytes)
      → (remotes_of rpeers).1 ≡ true
      → IsDistinct (remotes_of rpeers).0
      → (merge_peer_addresses inet_aton rpeers [] ≡ ((remotes_of rpeers).0, ok tt))
        × (peer_table inet_aton memory rpeers [] ≡ ok (remotes_of rpeers).0)
  constructor_refines_merge memory rpeers h d =
      peer_table-merge memory rpeers h (IsDistinct-IsTable (remotes_of rpeers).0 d)
