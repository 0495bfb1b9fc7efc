-- ===== src/Auth/Examples.antt =====
-- A codec and a cipher, and tokens under them.
use common_fw.Common.{
  ℕ, ℤ, pos, negsuc, ◌≡◌, refl, sym, subst, Option, none, some, [], ◌∷◌, ltb_ℤ, ◌==◌, if◌then◌else◌,
}
use common_fw.Auth.{
  Bytes, RawInfo, Token, Codec, accepted, refused, gen_token, check_token, check_cipher, check_raw,
  get_uid, get_expired_time, expired, invalid_uid,
}
use common_fw.Auth.Checking.{IsInverse, IsGenuine, check_token-gen_token, check_token-IsGenuine}

-- Plain parts with a uid and a time only.
raw_bytes : Option ℕ → Option Bytes → Option ℤ → Option Bytes → Option Bytes
raw_bytes (some u) none (some (pos t)) none = some (u ∷ t ∷ [])
raw_bytes _ _ _ _ = none

token_bytes : Option ℕ → Option Bytes → Option ℤ → Option Bytes → Option Bytes → Option Bytes
token_bytes (some u) none (some (pos t)) none (some c) = some (u ∷ t ∷ c)
token_bytes _ _ _ _ _ = none

encode_token : Option RawInfo → Option Bytes → Option Bytes
encode_token none c = none
encode_token (some r) c = token_bytes r.uid r.deviceid r.expired_time r.option c

decode_token : Bytes → Option Token
decode_token (u ∷ t ∷ c) = some (record {
  raw = some (record { uid = some u; deviceid = none; expired_time = some (pos t); option = none });
  cipher = some c;
})
decode_token _ = none

decrypt : Bytes → Option Bytes
decrypt [] = none
decrypt (x ∷ xs) = some xs

abbrev small_codec : Codec
small_codec = record {
  marshal_raw = λ r. raw_bytes r.uid r.deviceid r.expired_time r.option;
  marshal_token = λ t. encode_token t.raw t.cipher;
  unmarshal_token = decode_token;
  private_encrypt = λ m. some (7 ∷ m);
  public_decrypt = decrypt;
}

small_codec-IsInverse : IsInverse small_codec
unfolding encode_token token_bytes decode_token decrypt
small_codec-IsInverse = record {
  unmarshal_marshal = λ t b. from t.raw t.cipher b;
  decrypt_encrypt = λ m c e. (let f : 7 ∷ m ≡ c = cc in subst (λ x. decrypt x ≡ some m) f refl);
}
  where
    fields :
        (u : Option ℕ) (d : Option Bytes) (t : Option ℤ) (o c : Option Bytes) (b : Bytes)
        → token_bytes u d t o c ≡ some b
        → decode_token b
          ≡ some (record {
            raw = some (record { uid = u; deviceid = d; expired_time = t; option = o });
            cipher = c;
          })
    fields (some u) none (some (pos t)) none (some c) b e =
        let f : u ∷ t ∷ c ≡ b = cc in rw (sym f) refl
    fields none d t o c b e = absurd (cc)
    fields (some u) (some d) t o c b e = absurd (cc)
    fields (some u) none none o c b e = absurd (cc)
    fields (some u) none (some (negsuc t)) o c b e = absurd (cc)
    fields (some u) none (some (pos t)) (some o) c b e = absurd (cc)
    fields (some u) none (some (pos t)) none none b e = absurd (cc)

    from :
        (r : Option RawInfo) (c : Option Bytes) (b : Bytes)
        → encode_token r c ≡ some b
        → decode_token b ≡ some (record { raw = r; cipher = c })
    from none c b e = absurd (cc)
    from (some r) c b e = fields r.uid r.deviceid r.expired_time r.option c b e

abbrev user : RawInfo
user = record { uid = some 5; deviceid = none; expired_time = some (pos 100); option = none }

abbrev user_token : Bytes
user_token = 5 ∷ 100 ∷ 7 ∷ 5 ∷ 100 ∷ []

gen_token-user : gen_token small_codec (some user) ≡ some user_token
unfolding gen_token raw_bytes token_bytes encode_token
gen_token-user = refl

check_token-user : check_token small_codec (pos 99) user_token ≡ accepted user
unfolding check_token check_cipher check_raw decode_token decrypt raw_bytes
check_token-user = refl

check_token-gen_token_example : check_token small_codec (pos 99) user_token ≡ (
    if ltb_ℤ (get_expired_time user) (pos 99)
    then refused expired
    else (if get_uid user == 0 then refused invalid_uid else accepted user))
check_token-gen_token_example =
    check_token-gen_token small_codec small_codec-IsInverse user user_token (pos 99) gen_token-user

check_token-IsGenuine_example : IsGenuine small_codec (pos 99) user_token user
check_token-IsGenuine_example =
    check_token-IsGenuine small_codec (pos 99) user_token user check_token-user
