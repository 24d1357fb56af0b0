-- ===== src/Controller/Requests.antt =====
-- The indices that a primary context gives to the concurrent contexts: populate_indices, and the
-- reads of the indices in populate_request_data and make_api_requests. The requests themselves are
-- calls of libcurl.
pub mod Indices
use stochastic_scheduler_con.Prelude.{
  ℕ, zero, suc, ◌+◌, ◌-◌, ◌*◌, ◌/◌, ◌≡◌, true, false, List, [], ◌∷◌, ltb, if◌then◌else◌, get_elem?,
}
use stochastic_scheduler_con.Prelude.Outcome.{Outcome, ok, ◌>>=◌, or_fault}

-- for (i = 1; i < concurrency; ++i) push_back(i * step), from i on, `count` times.
unfoldable pub indices_from : ℕ → ℕ → ℕ → List ℕ
indices_from step i zero = []
indices_from step i (suc count) = i * step ∷ indices_from step (i + 1) count

unfoldable pub populate_indices : ℕ → ℕ → List ℕ
unfolding indices_from
populate_indices manifest_size concurrency =
    if ltb manifest_size concurrency
    then indices_from 1 1 (concurrency - 1)
    else indices_from (manifest_size / concurrency) 1 (concurrency - 1)

-- The loop over the handles: the "idx" of each request.
unfoldable pub request_indices : List ℕ → ℕ → ℕ → Outcome (List ℕ)
request_indices indices i zero = ok []
request_indices indices i (suc count) = or_fault (get_elem? indices i) >>= λ idx.
    request_indices indices (i + 1) count >>= λ rest. ok (idx ∷ rest)

-- make_api_requests: the indices that are sent. populate_request_data reads the one at 1 first.
unfoldable pub make_api_requests : ℕ → ℕ → Outcome (List ℕ)
unfolding populate_indices request_indices
make_api_requests manifest_size concurrency =
    if ltb 1 concurrency
    then (let indices = populate_indices manifest_size concurrency in
        or_fault (get_elem? indices 1) >>= λ _. request_indices indices 0 (concurrency - 1))
    else ok []
