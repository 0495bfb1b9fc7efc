-- ===== src/Utils/Buffer/Saturation.antt =====
-- What the arithmetic on buffers computes, for each data type.
use common_fw.Common.{
  ℕ, ◌+◌, ◌-◌, ◌%◌, ◌^◌, ◌/◌, ◌≤◌, ◌<◌, ◌≡◌, refl, Option, none, some, List, ltb, leb,
  if◌then◌else◌, arith, put_uint64, uint64-put_uint64,
}
use common_fw.Utils.Buffer.{
  DataType, data_type_int32, data_type_uint32, data_type_int64, data_type_uint64, other, int32_add,
  uint32_add, int64_add, uint64_add, int32_sub, uint32_sub, int64_sub, uint64_sub, int32_compare,
  uint32_compare, int64_compare, uint64_compare, add_map, sub_map, compare_map, buff_op, buffer_add,
  buffer_sub, buffer_compare,
}
use common_fw.Utils.Buffer.Width32.{
  Computes, IsBad, IsSigned, IsUnsigned, bytes, negative32, nonnegative32, range, signed_bytes,
  unsigned32,
}

unsigned64 :
    (a b : ℕ)
    → a < 2 ^ 64
    → b < 2 ^ 64
    → Computes data_type_uint64
        (put_uint64 a)
        (put_uint64 b)
        (put_uint64 (if ltb (a + b) (2 ^ 64) then a + b else 2 ^ 64 - 1))
        (put_uint64 (a - b))
        (leb b a)
unfolding buffer_add buffer_sub buffer_compare buff_op add_map sub_map compare_map uint64_add
    uint64_sub uint64_compare
unsigned64 a b h k = record {
  adds = rw (uint64-put_uint64 a (omega arith), uint64-put_uint64 b (omega arith)) (ground arith);
  subtracts =
      rw (uint64-put_uint64 a (omega arith), uint64-put_uint64 b (omega arith)) (ground arith);
  compares =
      rw (uint64-put_uint64 a (omega arith), uint64-put_uint64 b (omega arith)) (ground arith);
}

nonnegative64 :
    (u b : ℕ)
    → u < 2 ^ 64
    → b < 2 ^ 63
    → Computes data_type_int64
        (signed_bytes data_type_int64 (u))
        (put_uint64 b)
        (signed_bytes data_type_int64 (if ltb (u + b) (2 ^ 64) then u + b else 2 ^ 64 - 1))
        (signed_bytes data_type_int64 (u - b))
        (leb b u)
unfolding buffer_add buffer_sub buffer_compare buff_op add_map sub_map compare_map int64_add
    int64_sub int64_compare
nonnegative64 u b h k = record {
  adds =
      rw
        (uint64-put_uint64 ((u + 2 ^ 63) % 2 ^ 64) (omega arith), uint64-put_uint64 b (omega arith))
        (ground arith);
  subtracts =
      rw
        (uint64-put_uint64 ((u + 2 ^ 63) % 2 ^ 64) (omega arith), uint64-put_uint64 b (omega arith))
        (ground arith);
  compares =
      rw
        (uint64-put_uint64 ((u + 2 ^ 63) % 2 ^ 64) (omega arith), uint64-put_uint64 b (omega arith))
        (ground arith);
}

negative64 :
    (u c : ℕ)
    → u < 2 ^ 64
    → (1 ≤ c) × (c ≤ 2 ^ 63)
    → Computes data_type_int64
        (signed_bytes data_type_int64 (u))
        (put_uint64 (2 ^ 64 - c))
        (signed_bytes data_type_int64 (if leb c u then 2 ^ 64 - 1 else u + 2 ^ 64 - c))
        (signed_bytes data_type_int64 (if ltb (u + c) (2 ^ 64) then 0 else u + c - 2 ^ 64))
        (leb (2 ^ 64) (u + c))
unfolding buffer_add buffer_sub buffer_compare buff_op add_map sub_map compare_map int64_add
    int64_sub int64_compare
negative64 u c h k = record {
  adds =
      rw
        (
          uint64-put_uint64 ((u + 2 ^ 63) % 2 ^ 64) (omega arith),
          uint64-put_uint64 (2 ^ 64 - c) (omega arith),
        )
        (ground arith);
  subtracts =
      rw
        (
          uint64-put_uint64 ((u + 2 ^ 63) % 2 ^ 64) (omega arith),
          uint64-put_uint64 (2 ^ 64 - c) (omega arith),
        )
        (ground arith);
  compares =
      rw
        (
          uint64-put_uint64 ((u + 2 ^ 63) % 2 ^ 64) (omega arith),
          uint64-put_uint64 (2 ^ 64 - c) (omega arith),
        )
        (ground arith);
}

-- On unsigned numbers addition stops at the greatest number, subtraction at 0, and the comparison
-- says whether the first number is at least the second.
pub buffer_ops-unsigned :
    (t : DataType) (a b : ℕ)
    → IsUnsigned t
    → a < range t
    → b < range t
    → Computes t
        (bytes t a)
        (bytes t b)
        (bytes t (if ltb (a + b) (range t) then a + b else range t - 1))
        (bytes t (a - b))
        (leb b a)
buffer_ops-unsigned data_type_uint32 a b t h k = unsigned32 a b h k
buffer_ops-unsigned data_type_uint64 a b t h k = unsigned64 a b h k
buffer_ops-unsigned data_type_int32 a b t h k = absurd (ground arith)
buffer_ops-unsigned data_type_int64 a b t h k = absurd (ground arith)
buffer_ops-unsigned (other n) a b t h k = absurd (ground arith)

-- On a signed number and a second operand that is not negative, addition stops at the greatest
-- number and subtraction at the least. The comparison says whether the difference is in range, which
-- any two numbers that are not negative satisfy.
pub buffer_ops-nonnegative :
    (t : DataType) (u b : ℕ)
    → IsSigned t
    → u < range t
    → b < range t / 2
    → Computes t
        (signed_bytes t u)
        (bytes t b)
        (signed_bytes t (if ltb (u + b) (range t) then u + b else range t - 1))
        (signed_bytes t (u - b))
        (leb b u)
buffer_ops-nonnegative data_type_int32 u b t h k = nonnegative32 u b h k
buffer_ops-nonnegative data_type_int64 u b t h k = nonnegative64 u b h k
buffer_ops-nonnegative data_type_uint32 u b t h k = absurd (ground arith)
buffer_ops-nonnegative data_type_uint64 u b t h k = absurd (ground arith)
buffer_ops-nonnegative (other n) u b t h k = absurd (ground arith)

-- The bug: with a negative second operand `-c` the overflow tests are the wrong way round. A sum in
-- range becomes the greatest number and a sum below the range wraps around; a difference in range
-- becomes the least number and one above the range wraps around; and the comparison denies whenever
-- the difference is in range.
pub buffer_ops-negative :
    (t : DataType) (u c : ℕ)
    → IsSigned t
    → u < range t
    → (1 ≤ c) × (c ≤ range t / 2)
    → Computes t
        (signed_bytes t u)
        (bytes t (range t - c))
        (signed_bytes t (if leb c u then range t - 1 else u + range t - c))
        (signed_bytes t (if ltb (u + c) (range t) then 0 else u + c - range t))
        (leb (range t) (u + c))
buffer_ops-negative data_type_int32 u c t h k = negative32 u c h k
buffer_ops-negative data_type_int64 u c t h k = negative64 u c h k
buffer_ops-negative data_type_uint32 u c t h k = absurd (ground arith)
buffer_ops-negative data_type_uint64 u c t h k = absurd (ground arith)
buffer_ops-negative (other n) u c t h k = absurd (ground arith)

-- A buffer that is nil or of the wrong length, and a type that is none of the four, are errors of
-- all three operations.
pub buffer_ops-rejects :
    (d s : Option (List ℕ)) (t : DataType)
    → IsBad d s t
    → (buffer_add d s t ≡ none) × (buffer_sub d s t ≡ none) × (buffer_compare d s t ≡ none)
unfolding buffer_add buffer_sub buffer_compare buff_op add_map sub_map compare_map int32_add
    int32_sub int32_compare uint32_add uint32_sub uint32_compare int64_add int64_sub int64_compare
    uint64_add uint64_sub uint64_compare
buffer_ops-rejects none s t h = (refl, refl, refl)
buffer_ops-rejects (some d) none t h = (refl, refl, refl)
buffer_ops-rejects (some d) (some s) data_type_int32 h = (ground arith, ground arith, ground arith)
buffer_ops-rejects (some d) (some s) data_type_uint32 h = (ground arith, ground arith, ground arith)
buffer_ops-rejects (some d) (some s) data_type_int64 h = (ground arith, ground arith, ground arith)
buffer_ops-rejects (some d) (some s) data_type_uint64 h = (ground arith, ground arith, ground arith)
buffer_ops-rejects (some d) (some s) (other n) h = (refl, refl, refl)
