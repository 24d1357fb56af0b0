-- ===== src/Context/Peers.antt =====
-- The peer table of an execution context: merge_peer_addresses, the table that the constructor
-- builds, and rtostr of controller-app.cpp, which writes the text that both read.
pub mod Members
pub mod Merge
pub mod RoundTrip
use stochastic_scheduler_con.Prelude.{
  ℕ, ◌≡◌, Bool, true, false, ◌&&◌, ◌||◌, Option, none, some, List, [], ◌∷◌, ◌++◌, ◌==◌,
  if◌then◌else◌, Bytes, from_chars, to_chars,
}
use stochastic_scheduler_con.Prelude.Outcome.{Outcome, ok, thrown, ◌>>=◌, or_throw}

-- server::Remote with an IPv4 address: the port in the host's order, and s_addr.
pub record Remote : Type 0 where
  pub port : ℕ
  pub addr : ℕ

-- The comparison of merge_peer_addresses.
unfoldable pub same_peer : Remote → Remote → Bool
same_peer p q = p.port == q.port && p.addr == q.addr

-- std::find_if over the table, as a test for the end.
unfoldable pub is_peer : List Remote → Remote → Bool
unfolding same_peer
is_peer [] q = false
is_peer (p ∷ ps) q = same_peer p q || is_peer ps q

-- find(':') with the two calls of substr: what stands before and after the first colon.
unfoldable pub split_colon : Bytes → Option (Bytes × Bytes)
split_colon [] = none
split_colon (c ∷ cs) =
    let rest = split_colon cs in
    if c == b':' then some ([], cs) else elim rest [ none ↦ none | some r ↦ some (c ∷ r.0, r.1) ]

-- push_back where the peer is not in the table.
unfoldable pub add_peer : List Remote → Remote → List Remote
add_peer table peer = if is_peer table peer then table else table ++ peer ∷ []

-- inet_aton, which gives 0 where the text is no address, and else fills in s_addr.
module _ (inet_aton : Bytes → Option ℕ) where
  -- The address and the port of one text; `none` where the code throws.
  unfoldable pub remote_of : Bytes → Option Remote
  unfolding split_colon
  remote_of rpeer = elim (split_colon rpeer) [
    | none ↦ none
    | some parts ↦ elim (from_chars 65536 10 parts.1) [
      | none ↦ none
      | some rpp ↦ elim (inet_aton parts.0) [
        | none ↦ none
        | some s_addr ↦ some (record { port = rpp; addr = s_addr })
      ]
    ]
  ]

  -- merge_peer_addresses: the table after the call, and how it ends.
  unfoldable pub merge_peer_addresses : List Bytes → List Remote → List Remote × Outcome (Unit {0})
  merge_peer_addresses [] peers = (peers, ok tt)
  merge_peer_addresses (rpeer ∷ rest) peers = elim (remote_of rpeer) [
    | none ↦ (peers, thrown)
    | some peer ↦ merge_peer_addresses rest (add_peer peers peer)
  ]

  -- The table of the constructor. Its test of the result of inet_aton never holds, so that the
  -- address of a text that is none is what the memory of `paddr` held before; where there is no
  -- colon both parts are the whole text.
  unfoldable pub constructor_remote_of : ℕ → Bytes → Option Remote
  unfolding split_colon
  constructor_remote_of memory peer =
      let parts : Bytes × Bytes = elim (split_colon peer) [ none ↦ (peer, peer) | some r ↦ r ] in
      elim (from_chars 65536 10 parts.1) [
        | none ↦ none
        | some port ↦ elim (inet_aton parts.0) [
          | none ↦ some (record { port = port; addr = memory })
          | some s_addr ↦ some (record { port = port; addr = s_addr })
        ]
      ]

  unfoldable pub peer_table : ℕ → List Bytes → List Remote → Outcome (List Remote)
  peer_table memory [] peers = ok peers
  peer_table memory (peer ∷ rest) peers =
      or_throw (constructor_remote_of memory peer) >>= λ p. peer_table memory rest (peers ++ p ∷ [])

-- rtostr; inet_ntop is the function of an address to its dotted text.
unfoldable pub rtostr : (ℕ → Bytes) → Remote → Bytes
unfolding to_chars
rtostr inet_ntop raddr = inet_ntop raddr.addr ++ b':' ∷ to_chars raddr.port
