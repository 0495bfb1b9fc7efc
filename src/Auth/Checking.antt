-- ===== src/Auth/Checking.antt =====
-- What CheckToken accepts.
use common_fw.Common.{
  ℤ, ltb_ℤ, ◌≡◌, refl, ◌≢◌, inl, inr, true, false, Option, none, some, [], ◌∷◌, ◌==◌, if◌then◌else◌,
  arith, Bool-cases, Option-cases, sym, ◌∙◌, ap, subst,
}
use common_fw.Auth.{
  Bytes, RawInfo, Token, Codec, Checked, accepted, refused, equal, get_uid, get_expired_time,
  gen_token, check_raw, check_cipher, check_token, expired, invalid_uid, no_cipher, no_raw,
}

-- What the codec and the cipher promise: decoding gives back what was encoded, and the public key
-- what the private key encrypted.
pub record IsInverse (codec : Codec) : Type 0 where
  pub unmarshal_marshal :
      (t : Token) (b : Bytes) → codec.marshal_token t ≡ some b → codec.unmarshal_token b ≡ some t
  pub decrypt_encrypt :
      (m c : Bytes) → codec.private_encrypt m ≡ some c → codec.public_decrypt c ≡ some m

equal_refl : (xs : Bytes) → equal xs xs ≡ true
equal_refl [] = refl
equal_refl (x ∷ xs) = ground (arith, equal_refl xs)

equal→same : (xs ys : Bytes) → equal xs ys ≡ true → xs ≡ ys
equal→same [] [] e = refl
equal→same [] (y ∷ ys) e = absurd (cc)
equal→same (x ∷ xs) [] e = absurd (cc)
equal→same (x ∷ xs) (y ∷ ys) e = ground (arith, equal→same xs ys)

module _ (codec : Codec) (inverse : IsInverse codec) where
  -- A token that GenToken makes is accepted, with its plain part, until it expires and if its uid is
  -- not 0; after that it has expired, and with the uid 0 it is invalid.
  pub check_token-gen_token :
      (raw : RawInfo) (b : Bytes) (now : ℤ)
      → gen_token codec (some raw) ≡ some b
      → check_token codec now b ≡ (
          if ltb_ℤ (get_expired_time raw) now
          then refused expired
          else (if get_uid raw == 0 then refused invalid_uid else accepted raw))
  unfolding gen_token check_token check_cipher check_raw
  check_token-gen_token raw b now e = elim (Option-cases (codec.marshal_raw raw)) [
    | inl n ↦ absurd (let e' = rw (n, gen_token) at e in cc)
    | inr (m, f) ↦ elim (Option-cases (codec.private_encrypt m)) [
      | inl n ↦ absurd (let e' = rw (f, n, gen_token) at e in cc)
      | inr (c, g) ↦
          let e' : codec.marshal_token (record { raw = some raw; cipher = some c }) ≡ some b =
            rw (f, g, gen_token) at e in
          let back = inverse.unmarshal_marshal _ b e' in
          let open_c = inverse.decrypt_encrypt m c g in
          rw (back, check_token) (rw (open_c, check_cipher) (rw f (rw (equal_refl m) refl)))
    ]
  ]

-- What an accepted token shows.
pub record IsGenuine (codec : Codec) (now : ℤ) (buffer : Bytes) (raw : RawInfo) : Type 0 where
  pub cipher : Bytes
  pub encoding : Bytes
  pub decoded :
      codec.unmarshal_token buffer ≡ some (record { raw = some raw; cipher = some cipher })
  pub decrypted : codec.public_decrypt cipher ≡ some encoding
  pub encoded : codec.marshal_raw raw ≡ some encoding
  pub is_valid : ltb_ℤ (get_expired_time raw) now ≡ false
  pub has_uid : get_uid raw ≢ 0

module _ (codec : Codec) (now : ℤ) where
  check_raw-accepted :
      (r raw : RawInfo)
      → check_raw codec now r ≡ accepted raw
      → (ltb_ℤ (get_expired_time raw) now ≡ false) × (get_uid raw ≢ 0) × (r ≡ raw)
  unfolding check_raw
  check_raw-accepted r raw e = elim (Bool-cases (ltb_ℤ (get_expired_time r) now)) [
    | inl f ↦ absurd (let e' = rw f at e in cc)
    | inr f ↦ elim (Bool-cases (get_uid r == 0)) [
      | inl g ↦ absurd (let e' = rw (f, g) at e in cc)
      | inr g ↦
          let e' : ◌≡◌ {A = Checked} (accepted r) (accepted raw) = rw (f, g) at e in
          let same : r ≡ raw = cc in
          let nonzero : get_uid r ≢ 0 = λ h. ground arith in
          (
            subst (λ x. ltb_ℤ (get_expired_time x) now ≡ false) same f,
            subst (λ x. get_uid x ≢ 0) same nonzero,
            same,
          )
    ]
  ]

  check_cipher-accepted :
      (b c : Bytes) (r raw : RawInfo)
      → codec.unmarshal_token b ≡ some (record { raw = some r; cipher = some c })
      → check_cipher codec now r c ≡ accepted raw
      → IsGenuine codec now b raw
  unfolding check_cipher
  check_cipher-accepted b c r raw d e = elim (Option-cases (codec.public_decrypt c)) [
    | inl n ↦ absurd (let e' = rw (n, check_cipher) at e in cc)
    | inr (m, f) ↦ elim (Option-cases (codec.marshal_raw r)) [
      | inl n ↦ absurd (let e' = rw (f, n, check_cipher) at e in cc)
      | inr (m2, g) ↦ elim (Bool-cases (equal m m2)) [
        | inr h ↦ absurd (let e' = rw (f, g, h, check_cipher) at e in cc)
        | inl h ↦
            let e' : check_raw codec now r ≡ accepted raw = rw (f, g, h, check_cipher) at e in
            let (valid, uid, same) = check_raw-accepted r raw e' in
            let one = equal→same m m2 h in
            record {
              cipher = c;
              encoding = m;
              decoded =
                  subst
                    (λ (x : RawInfo).
                      codec.unmarshal_token b ≡ some (record { raw = some x; cipher = some c }))
                    same d;
              decrypted = f;
              encoded =
                  subst (λ (x : RawInfo). codec.marshal_raw x ≡ some m) same
                    (g ∙ ap some (sym one));
              is_valid = valid;
              has_uid = uid;
            }
      ]
    ]
  ]

  -- A token is accepted only if it holds the returned plain part, which has not expired and has a uid
  -- that is not 0, and a cipher that the public key decrypts to the encoding of that plain part.
  pub check_token-IsGenuine :
      (b : Bytes) (raw : RawInfo)
      → check_token codec now b ≡ accepted raw
      → IsGenuine codec now b raw
  unfolding check_token
  check_token-IsGenuine b raw e = elim (Option-cases (codec.unmarshal_token b)) [
    | inl n ↦ absurd (let e' = rw (n, check_token) at e in cc)
    | inr (t, d) ↦ from t.cipher t.raw d (rw (d, check_token) at e)
  ]
    where
      from :
          (cipher : Option Bytes) (r : Option RawInfo)
          → codec.unmarshal_token b ≡ some (record { raw = r; cipher = cipher })
          → (elim cipher [
            | none ↦ refused no_cipher
            | some c ↦ elim r [ none ↦ refused no_raw | some x ↦ check_cipher codec now x c ]
          ])
            ≡ accepted raw
          → IsGenuine codec now b raw
      from none r d e = absurd (cc)
      from (some c) none d e = absurd (cc)
      from (some c) (some x) d e = check_cipher-accepted b c x raw d e
