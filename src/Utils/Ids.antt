-- ===== src/Utils/Ids.antt =====
-- utils/server_id.go and utils/session_id.go: ids as numbers and as two fields. Masks and shifts are
-- quotients and remainders; the two parts that `|` joins have no bit in common, so it adds them.
use common_fw.Common.{ℕ, ◌+◌, ◌*◌, ◌/◌, ◌%◌, ◌^◌, ◌<◌, ◌≡◌, List, [], ◌∷◌, arith}

-- ConvertServerIDNumber2Fields, on a uint32.
convert_server_id_number_to_fields : ℕ → List ℕ
convert_server_id_number_to_fields d = d / 2 ^ 16 ∷ d % 2 ^ 16 ∷ []

-- ConvertFields2ServerIDNum: `d[0] << 16` wraps around. nil is a list without elements.
convert_fields_to_server_id_num : List ℕ → ℕ
convert_fields_to_server_id_num (a ∷ b ∷ []) = a * 2 ^ 16 % 2 ^ 32 + b % 2 ^ 16
convert_fields_to_server_id_num _ = 0

-- ConvertSessionIDNumber2Fields, on a uint64.
convert_session_id_number_to_fields : ℕ → List ℕ
convert_session_id_number_to_fields d = d / 2 ^ 32 ∷ d % 2 ^ 32 ∷ []

-- ConvertFields2SessionIDNum: the fields are uint32.
convert_fields_to_session_id_num : List ℕ → ℕ
convert_fields_to_session_id_num (a ∷ b ∷ []) = a * 2 ^ 32 % 2 ^ 64 + b % 2 ^ 32
convert_fields_to_session_id_num _ = 0

-- The fields of a server id make up the id, and fields below 2 ^ 16 are those of the id that they
-- make up.
server_id_round_trip :
    (d a b : ℕ)
    → d < 2 ^ 32
    → a < 2 ^ 16
    → b < 2 ^ 16
    → (convert_fields_to_server_id_num (convert_server_id_number_to_fields d) ≡ d)
      × (convert_server_id_number_to_fields (convert_fields_to_server_id_num (a ∷ b ∷ []))
          ≡ a ∷ b ∷ [])
unfolding convert_server_id_number_to_fields convert_fields_to_server_id_num
server_id_round_trip d a b h k l =
    let high : (a * 2 ^ 16 % 2 ^ 32 + b % 2 ^ 16) / 2 ^ 16 ≡ a = omega arith in
    let low : (a * 2 ^ 16 % 2 ^ 32 + b % 2 ^ 16) % 2 ^ 16 ≡ b = omega arith in (omega arith, cc)

-- The fields of a session id make up the id, and fields below 2 ^ 32 are those of the id that they
-- make up.
session_id_round_trip :
    (d a b : ℕ)
    → d < 2 ^ 64
    → a < 2 ^ 32
    → b < 2 ^ 32
    → (convert_fields_to_session_id_num (convert_session_id_number_to_fields d) ≡ d)
      × (convert_session_id_number_to_fields (convert_fields_to_session_id_num (a ∷ b ∷ []))
          ≡ a ∷ b ∷ [])
unfolding convert_session_id_number_to_fields convert_fields_to_session_id_num
session_id_round_trip d a b h k l =
    let high : (a * 2 ^ 32 % 2 ^ 64 + b % 2 ^ 32) / 2 ^ 32 ≡ a = omega arith in
    let low : (a * 2 ^ 32 % 2 ^ 64 + b % 2 ^ 32) % 2 ^ 32 ≡ b = omega arith in (omega arith, cc)
