-- ===== src/Http/Version.antt =====
-- HttpVersion, and the search for "HTTP/" that requests and responses share word for word.
use stochastic_scheduler_con.Prelude.{ℕ, zero, suc, ◌==◌, if◌then◌else◌, Bytes, codes, bytes_eq}

pub data HttpVersion : Type 0 where
  v1 v1_1 v2 v3 v0_9 unknown : HttpVersion

-- max_find_state
abbrev pub max_find_state : ℕ
max_find_state = 5

-- switch(find_version_state)
unfoldable pub find_version : ℕ → ℕ → ℕ
find_version zero c = if c == b'H' then 1 else 0
find_version (suc zero) c = if c == b'T' then 2 else 0
find_version (suc (suc zero)) c = if c == b'T' then 3 else 0
find_version (suc (suc (suc zero))) c = if c == b'P' then 4 else 0
find_version (suc (suc (suc (suc zero)))) c = if c == b'/' then 5 else 0
find_version (suc (suc (suc (suc (suc n))))) c = suc (suc (suc (suc (suc n))))

-- The version of a version_buf; the two parsers test the same five strings.
unfoldable pub version_of : Bytes → HttpVersion
version_of buf =
    if bytes_eq buf (codes "1.1")
    then v1_1
    else if bytes_eq buf (codes "1.0")
    then v1
    else if bytes_eq buf (codes "2")
    then v2
    else if bytes_eq buf (codes "3")
    then v3
    else if bytes_eq buf (codes "0.9")
    then v0_9
    else unknown
