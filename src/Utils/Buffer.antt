-- ===== src/Utils/Buffer.antt =====
-- utils/buffer.go: arithmetic on numbers that are stored as bytes.
pub mod Width32
pub mod Saturation
mod Examples
use common_fw.Common.{
  ℕ, ◌+◌, ◌-◌, ◌%◌, ◌^◌, Bool, true, false, not, ◌||◌, Option, none, some, List, ltb, ◌==◌,
  if◌then◌else◌, length, put_uint32, put_uint64, uint32, uint64,
}

-- interior.DataType; `other` are the types that the code does not name.
pub data DataType : Type 0 where
  data_type_int32 data_type_uint32 data_type_int64 data_type_uint64 : DataType
  other : ℕ → DataType

-- The constants, an int as its two's complement.
abbrev pub int32_max : ℕ
int32_max = 2 ^ 31 - 1

abbrev pub int32_min : ℕ
int32_min = 2 ^ 31

abbrev pub int64_max : ℕ
int64_max = 2 ^ 63 - 1

abbrev pub int64_min : ℕ
int64_min = 2 ^ 63

abbrev pub uint32_max : ℕ
uint32_max = 2 ^ 32 - 1

abbrev pub uint64_max : ℕ
uint64_max = 2 ^ 64 - 1

-- Addition and subtraction wrap around.
abbrev pub add32 : ℕ → ℕ → ℕ
add32 a b = (a + b) % 2 ^ 32

abbrev pub sub32 : ℕ → ℕ → ℕ
sub32 a b = (a + (2 ^ 32 - b)) % 2 ^ 32

abbrev pub add64 : ℕ → ℕ → ℕ
add64 a b = (a + b) % 2 ^ 64

abbrev pub sub64 : ℕ → ℕ → ℕ
sub64 a b = (a + (2 ^ 64 - b)) % 2 ^ 64

-- `a < b` on int32: two's complements are in order when their halves are exchanged.
abbrev pub int32_lt : ℕ → ℕ → Bool
int32_lt a b = ltb ((a + 2 ^ 31) % 2 ^ 32) ((b + 2 ^ 31) % 2 ^ 32)

abbrev pub int64_lt : ℕ → ℕ → Bool
int64_lt a b = ltb ((a + 2 ^ 63) % 2 ^ 64) ((b + 2 ^ 63) % 2 ^ 64)

-- The length test that each operation begins with.
abbrev pub bad_length : ℕ → List ℕ → List ℕ → Bool
bad_length n d s = not (length d == n) || not (length s == n)

-- An operation returns what it writes to `d`; `none` is an error, which writes nothing.
unfoldable pub int32_add : List ℕ → List ℕ → Option (List ℕ)
int32_add d s =
    let dv = uint32 d in
    let sum = add32 dv (uint32 s) in
    if bad_length 4 d s
    then none
    else some (put_uint32 (if int32_lt sum dv then int32_max else sum))

unfoldable pub uint32_add : List ℕ → List ℕ → Option (List ℕ)
uint32_add d s =
    let dv = uint32 d in
    let sum = add32 dv (uint32 s) in
    if bad_length 4 d s then none else some (put_uint32 (if ltb sum dv then uint32_max else sum))

unfoldable pub int64_add : List ℕ → List ℕ → Option (List ℕ)
int64_add d s =
    let dv = uint64 d in
    let sum = add64 dv (uint64 s) in
    if bad_length 8 d s
    then none
    else some (put_uint64 (if int64_lt sum dv then int64_max else sum))

unfoldable pub uint64_add : List ℕ → List ℕ → Option (List ℕ)
uint64_add d s =
    let dv = uint64 d in
    let sum = add64 dv (uint64 s) in
    if bad_length 8 d s then none else some (put_uint64 (if ltb sum dv then uint64_max else sum))

unfoldable pub int32_sub : List ℕ → List ℕ → Option (List ℕ)
int32_sub d s =
    let dv = uint32 d in
    let difference = sub32 dv (uint32 s) in
    if bad_length 4 d s
    then none
    else some (put_uint32 (if int32_lt dv difference then int32_min else difference))

unfoldable pub uint32_sub : List ℕ → List ℕ → Option (List ℕ)
uint32_sub d s =
    let dv = uint32 d in
    let difference = sub32 dv (uint32 s) in
    if bad_length 4 d s
    then none
    else some (put_uint32 (if ltb dv difference then 0 else difference))

unfoldable pub int64_sub : List ℕ → List ℕ → Option (List ℕ)
int64_sub d s =
    let dv = uint64 d in
    let difference = sub64 dv (uint64 s) in
    if bad_length 8 d s
    then none
    else some (put_uint64 (if int64_lt dv difference then int64_min else difference))

unfoldable pub uint64_sub : List ℕ → List ℕ → Option (List ℕ)
uint64_sub d s =
    let dv = uint64 d in
    let difference = sub64 dv (uint64 s) in
    if bad_length 8 d s
    then none
    else some (put_uint64 (if ltb dv difference then 0 else difference))

unfoldable pub int32_compare : List ℕ → List ℕ → Option Bool
int32_compare d s =
    let dv = uint32 d in
    if bad_length 4 d s then none else some (not (int32_lt dv (sub32 dv (uint32 s))))

unfoldable pub uint32_compare : List ℕ → List ℕ → Option Bool
uint32_compare d s =
    let dv = uint32 d in
    if bad_length 4 d s then none else some (not (ltb dv (sub32 dv (uint32 s))))

unfoldable pub int64_compare : List ℕ → List ℕ → Option Bool
int64_compare d s =
    let dv = uint64 d in
    if bad_length 8 d s then none else some (not (int64_lt dv (sub64 dv (uint64 s))))

unfoldable pub uint64_compare : List ℕ → List ℕ → Option Bool
uint64_compare d s =
    let dv = uint64 d in
    if bad_length 8 d s then none else some (not (ltb dv (sub64 dv (uint64 s))))

-- addMap, subMap and compareMap
unfoldable pub add_map : DataType → Option (List ℕ → List ℕ → Option (List ℕ))
add_map data_type_int32 = some int32_add
add_map data_type_uint32 = some uint32_add
add_map data_type_int64 = some int64_add
add_map data_type_uint64 = some uint64_add
add_map (other n) = none

unfoldable pub sub_map : DataType → Option (List ℕ → List ℕ → Option (List ℕ))
sub_map data_type_int32 = some int32_sub
sub_map data_type_uint32 = some uint32_sub
sub_map data_type_int64 = some int64_sub
sub_map data_type_uint64 = some uint64_sub
sub_map (other n) = none

unfoldable pub compare_map : DataType → Option (List ℕ → List ℕ → Option Bool)
compare_map data_type_int32 = some int32_compare
compare_map data_type_uint32 = some uint32_compare
compare_map data_type_int64 = some int64_compare
compare_map data_type_uint64 = some uint64_compare
compare_map (other n) = none

-- A buffer is `none` if it is nil. BufferCompare has the same tests as buffOp.
unfoldable pub buff_op :
    {A : Type 0}
    → Option (List ℕ)
    → Option (List ℕ)
    → DataType
    → (DataType → Option (List ℕ → List ℕ → Option A))
    → Option A
buff_op (some d) (some s) t op = elim (op t) [ none ↦ none | some f ↦ f d s ]
buff_op _ _ t op = none

unfoldable pub buffer_add : Option (List ℕ) → Option (List ℕ) → DataType → Option (List ℕ)
buffer_add d s t = buff_op d s t add_map

unfoldable pub buffer_sub : Option (List ℕ) → Option (List ℕ) → DataType → Option (List ℕ)
buffer_sub d s t = buff_op d s t sub_map

unfoldable pub buffer_compare : Option (List ℕ) → Option (List ℕ) → DataType → Option Bool
buffer_compare d s t = buff_op d s t compare_map
