-- ===== src/Utils/Hash.antt =====
-- utils/hash.go: hashes of keys.
use common_fw.Common.{ℕ, zero, suc, ◌%◌, List, ◌==◌, if◌then◌else◌, length, uint64}

unfoldable pub num_hash : List ℕ → ℕ
num_hash key = if length key == 8 then uint64 key else 0

-- The number is int, and never negative in the code.
unfoldable pub tm_hash_num : ℕ → List ℕ → ℕ
tm_hash_num zero key = 0
tm_hash_num (suc n) key = num_hash key % suc n

-- `str_hash` is the sum of package hash/fnv.
unfoldable pub tm_hash_str : (List ℕ → ℕ) → ℕ → List ℕ → ℕ
tm_hash_str str_hash zero key = 0
tm_hash_str str_hash (suc n) key = str_hash key % suc n
