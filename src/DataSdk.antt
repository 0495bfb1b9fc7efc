-- ===== src/DataSdk.antt =====
-- component/datasdk/datasdk.go and helper.go: data, their values, and the rules for operations.
pub mod Values
pub mod Rules
pub mod Checking
pub mod Legal
pub mod Accepting
pub mod Sessions
mod Examples
use common_fw.Common.{
  ℕ, suc, ◌+◌, ◌-◌, ◌*◌, ◌/◌, ◌%◌, ◌^◌, ℤ, pos, negsuc, Bool, true, false, not, ◌&&◌, ◌||◌, Option,
  none, some, List, [], ◌∷◌, ltb, ◌==◌, if◌then◌else◌, length, uint32, put_uint32, uint64,
  put_uint64,
}

-- interior.DataType and interior.IndexType; another number stands for itself.
pub data DataType : Type 0 where
  int32 uint32_type int64 uint64_type buffer : DataType
  other_data_type : ℕ → DataType

pub data IndexType : Type 0 where
  number1 number2 string_index : IndexType
  other_index_type : ℕ → IndexType

-- Optional fields are `none` for nil.
pub record Data : Type 0 where
  pub data_id : ℕ
  pub version : ℕ
  pub num_index1 : Option ℕ
  pub num_index2 : Option ℕ
  pub str_index : List ℕ
  pub data_type : Option DataType
  pub data_buffer : List ℕ

pub data HelperError : Type 0 where
  invalid_parameter invalid_data_type invalid_data : HelperError

abbrev pub same_type : DataType → DataType → Bool
same_type int32 int32 = true
same_type uint32_type uint32_type = true
same_type int64 int64 = true
same_type uint64_type uint64_type = true
same_type buffer buffer = true
same_type (other_data_type m) (other_data_type n) = m == n
same_type _ _ = false

-- A value with the type that its Put function asks for.
pub data Value : Type 0 where
  int32_value : ℤ → Value
  uint32_value : ℕ → Value
  int64_value : ℤ → Value
  uint64_value : ℕ → Value
  buffer_value : List ℕ → Value

-- The conversions `uint32(v)` and `uint64(v)` of a signed integer, and back, at a width.
abbrev pub to_unsigned : ℕ → ℤ → ℕ
to_unsigned w (pos n) = n % 2 ^ w
to_unsigned w (negsuc n) = 2 ^ w - 1 - n % 2 ^ w

abbrev pub to_signed : ℕ → ℕ → ℤ
to_signed w n = if ltb n (2 ^ (w - 1)) then pos n else negsuc (2 ^ w - 1 - n)

abbrev pub type_of : Value → DataType
type_of (int32_value v) = int32
type_of (uint32_value v) = uint32_type
type_of (int64_value v) = int64
type_of (uint64_value v) = uint64_type
type_of (buffer_value v) = buffer

abbrev pub encoded : Value → List ℕ
encoded (int32_value v) = put_uint32 (to_unsigned 32 v)
encoded (uint32_value v) = put_uint32 v
encoded (int64_value v) = put_uint64 (to_unsigned 64 v)
encoded (uint64_value v) = put_uint64 v
encoded (buffer_value v) = v

abbrev pub with_buffer : List ℕ → Data → Data
with_buffer b d = record {
  data_id = d.data_id;
  version = d.version;
  num_index1 = d.num_index1;
  num_index2 = d.num_index2;
  str_index = d.str_index;
  data_type = d.data_type;
  data_buffer = b;
}

pub data PutResult : Type 0 where
  puts : Data → PutResult
  put_fails : HelperError → PutResult

pub data GetResult : Type 0 where
  gets : Value → GetResult
  get_fails : HelperError → GetResult

-- `default` is what GetDataType returns for nil.
module _ (default : DataType) where
  abbrev pub get_data_type : Data → DataType
  get_data_type d = elim d.data_type [ none ↦ default | some t ↦ t ]

  -- PutInt32, PutUInt32, PutInt64, PutUInt64 and PutBuffer; nil is `none`.
  unfoldable pub put_value : Value → Option Data → PutResult
  put_value v none = put_fails invalid_parameter
  put_value v (some d) =
      if same_type (get_data_type d) (type_of v)
      then puts (with_buffer (encoded v) d)
      else put_fails invalid_data_type

  abbrev pub sized : ℕ → (List ℕ → Value) → List ℕ → GetResult
  sized n read b = if length b == n then gets (read b) else get_fails invalid_data

  -- The type asked for, and how a buffer is read.
  abbrev pub typed : DataType → (List ℕ → GetResult) → Option Data → GetResult
  typed t read none = get_fails invalid_parameter
  typed t read (some d) =
      if same_type (get_data_type d) t then read d.data_buffer else get_fails invalid_data_type

  unfoldable pub get_int32 : Option Data → GetResult
  get_int32 = typed int32 (sized 4 (λ b. int32_value (to_signed 32 (uint32 b))))

  unfoldable pub get_uint32 : Option Data → GetResult
  get_uint32 = typed uint32_type (sized 4 (λ b. uint32_value (uint32 b)))

  unfoldable pub get_int64 : Option Data → GetResult
  get_int64 = typed int64 (sized 8 (λ b. int64_value (to_signed 64 (uint64 b))))

  unfoldable pub get_uint64 : Option Data → GetResult
  get_uint64 = typed uint64_type (sized 8 (λ b. uint64_value (uint64 b)))

  unfoldable pub get_buffer : Option Data → GetResult
  get_buffer = typed buffer (λ b. gets (buffer_value b))

  -- The Get function beside the value's Put function.
  abbrev pub get_like : Value → Option Data → GetResult
  get_like (int32_value v) = get_int32
  get_like (uint32_value v) = get_uint32
  get_like (int64_value v) = get_int64
  get_like (uint64_value v) = get_uint64
  get_like (buffer_value v) = get_buffer
