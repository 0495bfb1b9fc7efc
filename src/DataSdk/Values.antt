-- ===== src/DataSdk/Values.antt =====
-- component/datasdk/helper.go: values put into data and got back.
use common_fw.Common.{
  ℕ, ◌^◌, ◌<◌, ◌≡◌, refl, ℤ, pos, negsuc, true, false, Option, none, some, uint32-put_uint32,
  uint64-put_uint64, ap, Bool-cases, inl, inr, ◌⊎◌, ◌∙◌, arith,
}
use common_fw.DataSdk.{
  DataType, int32, uint32_type, int64, uint64_type, buffer, other_data_type, Data, Value, type_of,
  encoded, with_buffer, to_unsigned, to_signed, same_type, puts, put_fails, gets, get_fails,
  invalid_data_type, get_data_type, put_value, get_int32, get_uint32, get_int64, get_uint64,
  get_buffer, get_like,
}

-- The value is one of the Go type.
abbrev pub InRange : Value → Type 0
InRange (Value.int32_value (pos n)) = n < 2 ^ 31
InRange (Value.int32_value (negsuc n)) = n < 2 ^ 31
InRange (Value.uint32_value n) = n < 2 ^ 32
InRange (Value.int64_value (pos n)) = n < 2 ^ 63
InRange (Value.int64_value (negsuc n)) = n < 2 ^ 63
InRange (Value.uint64_value n) = n < 2 ^ 64
InRange (Value.buffer_value b) = Unit

signed32 : (v : ℤ) → InRange (Value.int32_value v) → to_signed 32 (to_unsigned 32 v) ≡ v
signed32 (pos n) h = ground arith
signed32 (negsuc n) h = ground arith

signed64 : (v : ℤ) → InRange (Value.int64_value v) → to_signed 64 (to_unsigned 64 v) ≡ v
signed64 (pos n) h = ground arith
signed64 (negsuc n) h = ground arith

unsigned_lt : (w : ℕ) (v : ℤ) → 0 < 2 ^ w → to_unsigned w v < 2 ^ w
unsigned_lt w (pos n) h = omega arith
unsigned_lt w (negsuc n) h = omega arith

pub same_type_refl : (t : DataType) → same_type t t ≡ true
same_type_refl int32 = refl
same_type_refl uint32_type = refl
same_type_refl int64 = refl
same_type_refl uint64_type = refl
same_type_refl buffer = refl
same_type_refl (other_data_type n) = ground arith

pub same_type_sound : (t s : DataType) → same_type t s ≡ true → t ≡ s
same_type_sound int32 s e = ground arith
same_type_sound uint32_type s e = ground arith
same_type_sound int64 s e = ground arith
same_type_sound uint64_type s e = ground arith
same_type_sound buffer s e = ground arith
same_type_sound (other_data_type n) s e = ground arith

module _ (default : DataType) where
  read_back :
      (v : Value) (d : Data)
      → InRange v
      → same_type (get_data_type default d) (type_of v) ≡ true
      → get_like default v (some (with_buffer (encoded v) d)) ≡ gets v
  unfolding get_int32 get_uint32 get_int64 get_uint64 get_buffer
  read_back (Value.int32_value v) d h e = rw e (
      ap (λ n. gets (Value.int32_value n))
        (ap (to_signed 32) (uint32-put_uint32 (to_unsigned 32 v) (unsigned_lt 32 v (omega arith)))
          ∙ signed32 v h))
  read_back (Value.uint32_value v) d h e =
      rw e (ap (λ n. gets (Value.uint32_value n)) (uint32-put_uint32 v h))
  read_back (Value.int64_value v) d h e = rw e (
      ap (λ n. gets (Value.int64_value n))
        (ap (to_signed 64) (uint64-put_uint64 (to_unsigned 64 v) (unsigned_lt 64 v (omega arith)))
          ∙ signed64 v h))
  read_back (Value.uint64_value v) d h e =
      rw e (ap (λ n. gets (Value.uint64_value n)) (uint64-put_uint64 v h))
  read_back (Value.buffer_value v) d h e = rw e refl

  other_fails :
      (v : Value) (d : Data)
      → same_type (get_data_type default d) (type_of v) ≡ false
      → get_like default v (some d) ≡ get_fails invalid_data_type
  unfolding get_int32 get_uint32 get_int64 get_uint64 get_buffer
  other_fails (Value.int32_value v) d e = rw e refl
  other_fails (Value.uint32_value v) d e = rw e refl
  other_fails (Value.int64_value v) d e = rw e refl
  other_fails (Value.uint64_value v) d e = rw e refl
  other_fails (Value.buffer_value v) d e = rw e refl

-- Data of a type, which is the default where the field is nil.
abbrev pub IsOfType : DataType → Data → DataType → Type 0
IsOfType default d t = (d.data_type ≡ some t) ⊎ ((d.data_type ≡ none) × (default ≡ t))

IsOfType-type :
    (default : DataType) (d : Data) (t : DataType)
    → IsOfType default d t
    → get_data_type default d ≡ t
IsOfType-type default d t (inl e) = rw e refl
IsOfType-type default d t (inr e) = (let f = e.0 in rw f e.1)

type-IsOfType :
    (default : DataType) (d : Data) (t : DataType)
    → get_data_type default d ≡ t
    → IsOfType default d t
type-IsOfType default d t h = at d.data_type refl h
  where
    at :
        (o : Option DataType)
        → d.data_type ≡ o
        → elim o [ none ↦ default | some s ↦ s ] ≡ t
        → IsOfType default d t
    at none e f = inr (e, f)
    at (some s) e f = inl (e ∙ ap some f)

-- A value of the Go type is put into data of its type, whose Get function gives it back, and
-- nothing but the buffer of the data changes; where the data have another type, both functions
-- fail for the type. The type of data is the default where the field is nil.
pub get_like-put_value :
    (default : DataType) (v : Value) (d : Data)
    → InRange v
    → (IsOfType default d (type_of v)
        × ((d' : Data) × (put_value default v (some d) ≡ puts d')
            × (get_like default v (some d') ≡ gets v)
            × (d' ≡ with_buffer d'.data_buffer d)))
      ⊎ (¬ IsOfType default d (type_of v)
          × (put_value default v (some d) ≡ put_fails invalid_data_type)
          × (get_like default v (some d) ≡ get_fails invalid_data_type))
unfolding put_value
get_like-put_value default v d h =
    elim (Bool-cases (same_type (get_data_type default d) (type_of v))) [
      | inl e ↦ inl (
        type-IsOfType default d (type_of v)
            (same_type_sound (get_data_type default d) (type_of v) e),
        (with_buffer (encoded v) d, rw (e, put_value) refl, read_back default v d h e, refl),
      )
      | inr e ↦ inr (
        λ is_of.
            (let same = IsOfType-type default d (type_of v) is_of in
              let equal = same_type_refl (type_of v) in
              let eq : same_type (get_data_type default d) (type_of v) ≡ true =
                ap (λ t. same_type t (type_of v)) same ∙ equal in
              absurd (cc)),
        rw (e, put_value) refl,
        other_fails default v d e,
      )
    ]
