-- ===== src/Auth.antt =====
-- component/auth/auth.go: tokens, a plain part with its encryption under a private key.
pub mod Checking
mod Examples
use common_fw.Common.{
  ℕ, ℤ, pos, ltb_ℤ, Bool, true, false, Option, none, some, List, [], ◌∷◌, ◌&&◌, ◌==◌, if◌then◌else◌,
}

abbrev pub Bytes : Type 0
Bytes = List ℕ

-- The messages of token.proto: optional fields, and `none` for a nil slice.
pub record RawInfo : Type 0 where
  pub uid : Option ℕ
  pub deviceid : Option Bytes
  pub expired_time : Option ℤ
  pub option : Option Bytes

pub record Token : Type 0 where
  pub raw : Option RawInfo
  pub cipher : Option Bytes

-- GetUid and GetExpiredTime: 0 if the field is not there.
abbrev pub get_uid : RawInfo → ℕ
get_uid raw = elim raw.uid [ none ↦ 0 | some u ↦ u ]

abbrev pub get_expired_time : RawInfo → ℤ
get_expired_time raw = elim raw.expired_time [ none ↦ pos 0 | some t ↦ t ]

-- The errors of CheckToken, in the order of its tests.
pub data TokenError : Type 0 where
  bad_token no_cipher no_raw bad_cipher bad_raw differs expired invalid_uid : TokenError

pub data Checked : Type 0 where
  accepted : RawInfo → Checked
  refused : TokenError → Checked

-- bytes.Equal
abbrev pub equal : Bytes → Bytes → Bool
equal [] [] = true
equal [] (y ∷ ys) = false
equal (x ∷ xs) [] = false
equal (x ∷ xs) (y ∷ ys) = x == y && equal xs ys

-- proto.Marshal and proto.Unmarshal, and the cipher with the key files' paths set; `none` is an
-- error.
pub record Codec : Type 0 where
  pub marshal_raw : RawInfo → Option Bytes
  pub marshal_token : Token → Option Bytes
  pub unmarshal_token : Bytes → Option Token
  pub private_encrypt : Bytes → Option Bytes
  pub public_decrypt : Bytes → Option Bytes

module _ (codec : Codec) where
  -- A nil raw is an error.
  unfoldable pub gen_token : Option RawInfo → Option Bytes
  gen_token none = none
  gen_token (some raw) = elim (codec.marshal_raw raw) [
    | none ↦ none
    | some raw_buffer ↦ elim (codec.private_encrypt raw_buffer) [
      | none ↦ none
      | some cipher ↦ codec.marshal_token (record { raw = some raw; cipher = some cipher })
    ]
  ]

  -- The tests behind the comparison, at the time `now` in seconds.
  unfoldable pub check_raw : ℤ → RawInfo → Checked
  check_raw now raw =
      if ltb_ℤ (get_expired_time raw) now
      then refused expired
      else (if get_uid raw == 0 then refused invalid_uid else accepted raw)

  unfoldable pub check_cipher : ℤ → RawInfo → Bytes → Checked
  check_cipher now raw cipher = elim (codec.public_decrypt cipher) [
    | none ↦ refused bad_cipher
    | some raw_buffer ↦ elim (codec.marshal_raw raw) [
      | none ↦ refused bad_raw
      | some raw_buffer2 ↦
          if equal raw_buffer raw_buffer2 then check_raw now raw else refused differs
    ]
  ]

  unfoldable pub check_token : ℤ → Bytes → Checked
  check_token now buffer = elim (codec.unmarshal_token buffer) [
    | none ↦ refused bad_token
    | some token ↦ elim token.cipher [
      | none ↦ refused no_cipher
      | some cipher ↦ elim token.raw [
        | none ↦ refused no_raw
        | some raw ↦ check_cipher now raw cipher
      ]
    ]
  ]
