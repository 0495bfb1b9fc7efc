-- ===== src/Utils/Buffer/Examples.antt =====
-- Runs of the buffer arithmetic on concrete bytes, and its theorems there.
use common_fw.Common.{◌-◌, ◌+◌, ◌^◌, ◌≡◌, refl, inl, true, false, some, [], ◌∷◌, arith}
use common_fw.Utils.Buffer.{
  data_type_int32, buffer_add, buffer_compare, buff_op, add_map, compare_map, int32_add,
  int32_compare,
}
use common_fw.Utils.Buffer.Saturation.{buffer_ops-negative}
use common_fw.Utils.Buffer.Width32.{Computes, bytes, signed_bytes}

-- 5 + (-1) is the greatest number.
add_minus_one :
    buffer_add (some (0 ∷ 0 ∷ 0 ∷ 5 ∷ [])) (some (255 ∷ 255 ∷ 255 ∷ 255 ∷ [])) data_type_int32
    ≡ some (127 ∷ 255 ∷ 255 ∷ 255 ∷ [])
unfolding buffer_add buff_op add_map int32_add
add_minus_one = refl

-- 0 is said to be at least 5.
zero_at_least_five :
    buffer_compare (some (0 ∷ 0 ∷ 0 ∷ 0 ∷ [])) (some (0 ∷ 0 ∷ 0 ∷ 5 ∷ [])) data_type_int32
    ≡ some true
unfolding buffer_compare buff_op compare_map int32_compare
zero_at_least_five = refl

buffer_ops-negative_example :
    Computes data_type_int32
      (signed_bytes data_type_int32 (2 ^ 31 + 5))
      (bytes data_type_int32 (2 ^ 32 - 1))
      (signed_bytes data_type_int32 (2 ^ 32 - 1))
      (signed_bytes data_type_int32 0)
      false
buffer_ops-negative_example =
    buffer_ops-negative data_type_int32 (2 ^ 31 + 5) 1 (inl refl) (omega arith)
      (omega arith, omega arith)
