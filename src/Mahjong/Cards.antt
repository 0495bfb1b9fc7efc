-- ===== src/Mahjong/Cards.antt =====
-- component/mjana/mjana.go: cards, their comparison and order, and the test for seven pairs.
-- common.CardInformation and common.CardType are generated from a protocol file that is not in the
-- repository. A card is what its getters return; the enum's numbers are a parameter.
pub mod SevenPairs
use common_fw.Common.{
  ℕ, zero, suc, ◌+◌, ◌≤◌, ◌≡◌, ◌⊎◌, Bool, true, false, not, ◌&&◌, ◌||◌, Option, none, some, List,
  [], ◌∷◌, ltb, leb, ◌==◌, if◌then◌else◌, length, Outcome, ok, panic, ◌>>=◌,
}

pub record CardInformation : Type 0 where
  pub type : ℕ
  pub value : ℕ

-- The numbers of CardType_W, CardType_T, CardType_S and CardType_Z.
pub record CardTypes : Type 0 where
  pub w : ℕ
  pub t : ℕ
  pub s : ℕ
  pub z : ℕ

-- What the code relies on where it indexes arrays of four suits by `type - 1`.
pub record IsNumbered (ct : CardTypes) : Type 0 where
  pub w_one : ct.w ≡ 1
  pub t_two : ct.t ≡ 2
  pub s_three : ct.s ≡ 3
  pub z_four : ct.z ≡ 4

abbrev pub card : ℕ → ℕ → CardInformation
card type value = record { type = type; value = value }

-- The comparison of two cards that are there.
abbrev pub same : CardInformation → CardInformation → Bool
same a b = a.type == b.type && a.value == b.value

-- CardEq, on pointers.
unfoldable pub card_eq : Option CardInformation → Option CardInformation → Bool
card_eq none b = false
card_eq (some a) none = false
card_eq (some a) (some b) = same a b

-- Cards4Sort.Less, on the cards at the two indices.
abbrev pub less : CardInformation → CardInformation → Bool
less a b = if a.type == b.type then ltb a.value b.value else ltb a.type b.type

-- The loop of is7Dui from an even index on, with its counter.
unfoldable pub dui_loop : List CardInformation → ℕ → Outcome ℕ
unfolding card_eq
dui_loop [] dui_count = ok dui_count
dui_loop (a ∷ []) dui_count = panic
dui_loop (a ∷ b ∷ rest) dui_count =
    let more = dui_loop rest (dui_count + 1) in
    if card_eq (some a) (some b) then more else ok dui_count

unfoldable pub is_7_dui : List CardInformation → Outcome Bool
is_7_dui hand_cards =
    if length hand_cards == 14 then (dui_loop hand_cards 0 >>= λ n. ok (n == 7)) else ok false
