-- ===== src/Utils/Buffer/Width32.antt =====
-- utils/buffer.go: the numbers in the buffers, and the arithmetic on those of 32 bits.
use common_fw.Common.{
  ℕ, ◌+◌, ◌-◌, ◌%◌, ◌^◌, ◌/◌, ◌≤◌, ◌<◌, ◌≡◌, ◌≢◌, ◌⊎◌, Bool, Option, some, List, [], ltb, leb,
  if◌then◌else◌, arith, length, put_uint32, put_uint64, uint32-put_uint32,
}
use common_fw.Utils.Buffer.{
  DataType, data_type_int32, data_type_uint32, data_type_int64, data_type_uint64, other, int32_add,
  uint32_add, int32_sub, uint32_sub, int32_compare, uint32_compare, add_map, sub_map, compare_map,
  buff_op, buffer_add, buffer_sub, buffer_compare,
}

-- The number of values of a type, and the bytes of a value.
abbrev pub range : DataType → ℕ
range data_type_int32 = 2 ^ 32
range data_type_uint32 = 2 ^ 32
range data_type_int64 = 2 ^ 64
range data_type_uint64 = 2 ^ 64
range (other n) = 0

abbrev pub bytes : DataType → ℕ → List ℕ
bytes data_type_int32 v = put_uint32 v
bytes data_type_uint32 v = put_uint32 v
bytes data_type_int64 v = put_uint64 v
bytes data_type_uint64 v = put_uint64 v
bytes (other n) v = []

abbrev pub IsUnsigned : DataType → Type 0
IsUnsigned t = (t ≡ data_type_uint32) ⊎ (t ≡ data_type_uint64)

abbrev pub IsSigned : DataType → Type 0
IsSigned t = (t ≡ data_type_int32) ⊎ (t ≡ data_type_int64)

-- The bytes of the signed number `u - range t / 2`: its two's complement.
abbrev pub signed_bytes : DataType → ℕ → List ℕ
signed_bytes t u = bytes t ((u + range t / 2) % range t)

-- The length of a value.
abbrev pub size : DataType → ℕ
size data_type_int32 = 4
size data_type_uint32 = 4
size data_type_int64 = 8
size data_type_uint64 = 8
size (other n) = 0

-- Not two buffers of the length of a supported type.
abbrev pub IsBad : Option (List ℕ) → Option (List ℕ) → DataType → Type 0
IsBad (some d) (some s) t = (length d ≢ size t) ⊎ (length s ≢ size t) ⊎ (size t ≡ 0)
IsBad _ _ t = Unit

-- Results of the three operations on two buffers.
pub record Computes (t : DataType) (d s : List ℕ) (sum difference : List ℕ) (at_least : Bool)
    : Type 0 where
  pub adds : buffer_add (some d) (some s) t ≡ some sum
  pub subtracts : buffer_sub (some d) (some s) t ≡ some difference
  pub compares : buffer_compare (some d) (some s) t ≡ some at_least

pub unsigned32 :
    (a b : ℕ)
    → a < 2 ^ 32
    → b < 2 ^ 32
    → Computes data_type_uint32
        (put_uint32 a)
        (put_uint32 b)
        (put_uint32 (if ltb (a + b) (2 ^ 32) then a + b else 2 ^ 32 - 1))
        (put_uint32 (a - b))
        (leb b a)
unfolding buffer_add buffer_sub buffer_compare buff_op add_map sub_map compare_map uint32_add
    uint32_sub uint32_compare
unsigned32 a b h k = record {
  adds = rw (uint32-put_uint32 a (omega arith), uint32-put_uint32 b (omega arith)) (ground arith);
  subtracts =
      rw (uint32-put_uint32 a (omega arith), uint32-put_uint32 b (omega arith)) (ground arith);
  compares =
      rw (uint32-put_uint32 a (omega arith), uint32-put_uint32 b (omega arith)) (ground arith);
}

pub nonnegative32 :
    (u b : ℕ)
    → u < 2 ^ 32
    → b < 2 ^ 31
    → Computes data_type_int32
        (signed_bytes data_type_int32 (u))
        (put_uint32 b)
        (signed_bytes data_type_int32 (if ltb (u + b) (2 ^ 32) then u + b else 2 ^ 32 - 1))
        (signed_bytes data_type_int32 (u - b))
        (leb b u)
unfolding buffer_add buffer_sub buffer_compare buff_op add_map sub_map compare_map int32_add
    int32_sub int32_compare
nonnegative32 u b h k = record {
  adds =
      rw
        (uint32-put_uint32 ((u + 2 ^ 31) % 2 ^ 32) (omega arith), uint32-put_uint32 b (omega arith))
        (ground arith);
  subtracts =
      rw
        (uint32-put_uint32 ((u + 2 ^ 31) % 2 ^ 32) (omega arith), uint32-put_uint32 b (omega arith))
        (ground arith);
  compares =
      rw
        (uint32-put_uint32 ((u + 2 ^ 31) % 2 ^ 32) (omega arith), uint32-put_uint32 b (omega arith))
        (ground arith);
}

pub negative32 :
    (u c : ℕ)
    → u < 2 ^ 32
    → (1 ≤ c) × (c ≤ 2 ^ 31)
    → Computes data_type_int32
        (signed_bytes data_type_int32 (u))
        (put_uint32 (2 ^ 32 - c))
        (signed_bytes data_type_int32 (if leb c u then 2 ^ 32 - 1 else u + 2 ^ 32 - c))
        (signed_bytes data_type_int32 (if ltb (u + c) (2 ^ 32) then 0 else u + c - 2 ^ 32))
        (leb (2 ^ 32) (u + c))
unfolding buffer_add buffer_sub buffer_compare buff_op add_map sub_map compare_map int32_add
    int32_sub int32_compare
negative32 u c h k = record {
  adds =
      rw
        (
          uint32-put_uint32 ((u + 2 ^ 31) % 2 ^ 32) (omega arith),
          uint32-put_uint32 (2 ^ 32 - c) (omega arith),
        )
        (ground arith);
  subtracts =
      rw
        (
          uint32-put_uint32 ((u + 2 ^ 31) % 2 ^ 32) (omega arith),
          uint32-put_uint32 (2 ^ 32 - c) (omega arith),
        )
        (ground arith);
  compares =
      rw
        (
          uint32-put_uint32 ((u + 2 ^ 31) % 2 ^ 32) (omega arith),
          uint32-put_uint32 (2 ^ 32 - c) (omega arith),
        )
        (ground arith);
}
