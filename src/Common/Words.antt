-- ===== src/Common/Words.antt =====
-- Words as bytes in big-endian order (package encoding/binary). A byte is a number below 256.
use Prim.Native.Nat.{ℕ, ◌+◌, ◌*◌, ◌/◌, ◌%◌, ◌^◌, ◌<◌}
use mathlib.Core.Path.{◌≡◌}
use mathlib.Core.List.{List, [], ◌∷◌}
use native.Mathlib.Omega.{arith}

abbrev pub put_uint16 : ℕ → List ℕ
put_uint16 v = v / 2 ^ 8 % 256 ∷ v % 256 ∷ []

abbrev pub put_uint32 : ℕ → List ℕ
put_uint32 v = v / 2 ^ 24 % 256 ∷ v / 2 ^ 16 % 256 ∷ v / 2 ^ 8 % 256 ∷ v % 256 ∷ []

abbrev pub put_uint64 : ℕ → List ℕ
put_uint64 v =
    v / 2 ^ 56 % 256 ∷ v / 2 ^ 48 % 256 ∷ v / 2 ^ 40 % 256 ∷ v / 2 ^ 32 % 256 ∷ put_uint32 v

-- A shorter list is read nowhere: the code panics there, or has tested the length.
abbrev pub uint16 : List ℕ → ℕ
uint16 (a ∷ b ∷ _) = a * 2 ^ 8 + b
uint16 _ = 0

abbrev pub uint32 : List ℕ → ℕ
uint32 (a ∷ b ∷ c ∷ d ∷ _) = a * 2 ^ 24 + b * 2 ^ 16 + c * 2 ^ 8 + d
uint32 _ = 0

abbrev pub uint64 : List ℕ → ℕ
uint64 (a ∷ b ∷ c ∷ d ∷ rest) = uint32 (a ∷ b ∷ c ∷ d ∷ []) * 2 ^ 32 + uint32 rest
uint64 _ = 0

pub uint32-put_uint32 : (v : ℕ) → v < 2 ^ 32 → uint32 (put_uint32 v) ≡ v
uint32-put_uint32 v h = omega arith

pub uint64-put_uint64 : (v : ℕ) → v < 2 ^ 64 → uint64 (put_uint64 v) ≡ v
uint64-put_uint64 v h = omega arith
