-- ===== src/Context/Examples.antt =====
-- Peers with addresses in one network, on which the results about peer tables apply.
use stochastic_scheduler_con.Prelude.{
  ℕ, ◌+◌, ◌-◌, ◌≡◌, refl, sym, ap, subst, true, ◌⊎◌, ◌↔◌, inl, inr, Option, none, some, List, [],
  ◌∷◌, ◌++◌, arith, drop, Bytes, codes, from_chars,
}
use stochastic_scheduler_con.Prelude.Outcome.{ok, thrown}
use stochastic_scheduler_con.Context.Peers.{
  Remote, split_colon, remote_of, constructor_remote_of, merge_peer_addresses, peer_table,
}
use stochastic_scheduler_con.Context.Peers.Members.{IsIn, IsDistinct}
use stochastic_scheduler_con.Context.Peers.Merge.{
  remotes_of, how_it_ends, merge_refines_union, constructor_refines_merge,
}

-- The addresses 10.0.0.0 to 10.0.0.9, by their last digit.
abbrev inet_ntop : ℕ → Bytes
inet_ntop addr = codes "10.0.0." ++ (48 + addr) ∷ []

abbrev last_digit : Bytes → Option ℕ
last_digit [] = none
last_digit (c ∷ []) = some (c - 48)
last_digit (c ∷ d ∷ cs) = none

abbrev inet_aton : Bytes → Option ℕ
inet_aton text = last_digit (drop 7 text)

abbrev peer : ℕ → Remote
peer addr = record { port = 5200; addr = addr }

abbrev two_peers : List Remote
two_peers = peer 1 ∷ peer 2 ∷ []

abbrev texts : List Bytes
texts = codes "10.0.0.2:5200" ∷ codes "10.0.0.3:80" ∷ codes "nowhere" ∷ []

two_peers-IsDistinct : IsDistinct two_peers
two_peers-IsDistinct = (
  (λ h. elim h [ inl e ↦ absurd (omega (arith, ap (λ r. r.addr) e)) | inr e ↦ e ]),
  ((λ e. e), tt),
)

merge_refines_union_example :
    (IsIn (peer 3) (merge_peer_addresses inet_aton texts two_peers).0
      ↔ (IsIn (peer 3) two_peers ⊎ IsIn (peer 3) (remotes_of inet_aton texts).0))
    × ((merge_peer_addresses inet_aton texts two_peers).1
        ≡ how_it_ends inet_aton (remotes_of inet_aton texts).1)
    × IsDistinct (merge_peer_addresses inet_aton texts two_peers).0
merge_refines_union_example =
    merge_refines_union inet_aton texts two_peers (peer 3) two_peers-IsDistinct

two_texts :
    remotes_of inet_aton (codes "10.0.0.1:5200" ∷ codes "10.0.0.2:5200" ∷ []) ≡ (two_peers, true)
unfolding remotes_of remote_of split_colon from_chars
two_texts = refl

constructor_refines_merge_example :
    let named = codes "10.0.0.1:5200" ∷ codes "10.0.0.2:5200" ∷ [] in
    (merge_peer_addresses inet_aton named [] ≡ ((remotes_of inet_aton named).0, ok tt))
    × (peer_table inet_aton 17 named [] ≡ ok (remotes_of inet_aton named).0)
constructor_refines_merge_example =
    constructor_refines_merge inet_aton 17 (codes "10.0.0.1:5200" ∷ codes "10.0.0.2:5200" ∷ [])
      (ap (λ r. r.1) two_texts)
      (subst IsDistinct (sym (ap (λ r. r.0) two_texts)) two_peers-IsDistinct)

-- A name for an address is refused by a merge, and taken by the constructor.
unchecked :
    (merge_peer_addresses inet_aton (codes "nowhere:80" ∷ []) two_peers ≡ (two_peers, thrown))
    × (peer_table inet_aton 17 (codes "nowhere:80" ∷ []) two_peers
        ≡ ok (two_peers ++ record { port = 80; addr = 17 } ∷ []))
unfolding merge_peer_addresses peer_table remote_of constructor_remote_of split_colon from_chars
unchecked = (refl, refl)
