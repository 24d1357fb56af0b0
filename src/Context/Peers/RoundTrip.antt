-- ===== src/Context/Peers/RoundTrip.antt =====
-- rtostr writes a peer as the text that merge_peer_addresses reads.
use stochastic_scheduler_con.Prelude.{ℕ, ◌<◌, ◌≡◌, ◌≢◌, Option, some, Bytes, All}
use stochastic_scheduler_con.Context.Peers.{Remote}

abbrev pub NoColon : Bytes → Type 0
NoColon = All (λ c. c ≢ b':')

-- inet_aton reads what inet_ntop writes of an address, which holds no colon.
pub record IsInverse (inet_aton : Bytes → Option ℕ) (inet_ntop : ℕ → Bytes) (addr : ℕ)
    : Type 0 where
  pub reads : inet_aton (inet_ntop addr) ≡ some addr
  pub plain : NoColon (inet_ntop addr)

module _ (inet_aton : Bytes → Option ℕ) (inet_ntop : ℕ → Bytes) where
  -- A peer whose port has 16 bits and whose address is written and read back.
  abbrev pub IsRemote : Remote → Type 0
  IsRemote p = (p.port < 65536) × IsInverse inet_aton inet_ntop p.addr
