-- ===== src/Mahjong/Wild.antt =====
-- component/mjana/mjana.go: hands with wild cards, by the sequential search (Analyze3NP2WildCards,
-- Ana3NP2WildMenCardsOpt and what they call).
pub mod Exclude
pub mod Search
pub mod Needs
pub mod Suits
pub mod Select
pub mod Sound
pub mod Choices
pub mod Complete
use common_fw.Common.{
  ℕ, zero, suc, ◌+◌, ◌-◌, ◌%◌, Bool, true, false, not, ◌&&◌, ◌||◌, Option, some, List, [], ◌∷◌,
  ◌++◌, ltb, leb, ◌==◌, if◌then◌else◌, length, replicate, Outcome, ok, panic, ◌>>=◌,
}
use common_fw.Mahjong.Cards.{CardInformation, CardTypes, card, card_eq}
use common_fw.Mahjong.Hand.{new_analyser, split002}

-- excludCard's loop: the cards that are not the symbol, in order, and how many were.
exclud_loop :
    List CardInformation
    → Option CardInformation
    → List CardInformation
    → ℕ
    → List CardInformation × ℕ
exclud_loop [] symbol out_cards exclude_num = (out_cards, exclude_num)
exclud_loop (v ∷ vs) symbol out_cards exclude_num =
    let hit = card_eq (some v) symbol in
    exclud_loop vs symbol (if hit then out_cards else out_cards ++ (v ∷ []))
      (if hit then exclude_num + 1 else exclude_num)

unfoldable pub exclud_card :
    List CardInformation → Option CardInformation → List CardInformation × ℕ
unfolding exclud_loop card_eq
exclud_card cards symbol = exclud_loop cards symbol [] 0

abbrev pub num_to_be_3n : ℕ → ℕ
num_to_be_3n length = (3 - length % 3) % 3

-- length % 3 is at most 2, so the difference is not negative.
abbrev pub num_to_be_3n_plus_2 : ℕ → ℕ
num_to_be_3n_plus_2 length = 2 - length % 3

-- menGroup, by suit index; a suit index outside of the four panics.
unfoldable pub men_group :
    List CardInformation → (ℕ → List CardInformation) → Outcome (ℕ → List CardInformation)
men_group [] group = ok group
men_group (v ∷ vs) group =
    let k = v.type - 1 in
    let rest = men_group vs (λ j. if j == k then group k ++ (v ∷ []) else group j) in
    if leb 1 v.type && leb v.type 4 then rest else panic

-- The entry of tempAna for suit `j`, where suit `i` takes the pair.
abbrev pub need : (ℕ → List CardInformation) → ℕ → ℕ → ℕ
need group i j =
    if i == j then num_to_be_3n_plus_2 (length (group j)) else num_to_be_3n (length (group j))

abbrev pub need_all_num : (ℕ → List CardInformation) → ℕ → ℕ
need_all_num group i = need group i 0 + need group i 1 + need group i 2 + need group i 3

abbrev pub men_row : (ℕ → List CardInformation) → ℕ → ℕ → List ℕ
men_row group wild_num i =
    if leb (need_all_num group i) wild_num
    then need group i 0 ∷ need group i 1 ∷ need group i 2 ∷ need group i 3 ∷ []
    else []

unfoldable pub pre_ana_3np2_wild_cards : List CardInformation → ℕ → Outcome (List (List ℕ))
pre_ana_3np2_wild_cards no_wild_cards wild_num =
    if wild_num == 0
    then ok ([] ∷ [] ∷ [] ∷ [] ∷ [])
    else (men_group no_wild_cards (λ j. []) >>= λ group. ok (
        men_row group wild_num 0
        ∷ men_row group wild_num 1
        ∷ men_row group wild_num 2
        ∷ men_row group wild_num 3
        ∷ []))

-- `for x := i; x < i + n; x++ { isHu = body(x); if isHu { return } }`
unfoldable pub value_loop : ℕ → ℕ → (ℕ → Outcome Bool) → Outcome Bool
value_loop zero x body = ok false
value_loop (suc n) x body =
    let rest = value_loop n (x + 1) body in body x >>= λ is_hu. if is_hu then ok true else rest

-- `for _, v := range vs { isHu = body(v); if isHu { return } }`
unfoldable pub range_loop {ℓ} : {A : Type ℓ} → (A → Outcome Bool) → List A → Outcome Bool
range_loop body [] = ok false
range_loop body (v ∷ vs) =
    let rest = range_loop body vs in body v >>= λ is_hu. if is_hu then ok true else rest

-- A suit and the bound of its values, as in possibleCards and allExceptMatchType.
abbrev pub Pattern : Type 0
Pattern = ℕ × ℕ

-- The suits with entry 0 only want all suits to be tried.
abbrev pub is_all_zero : List ℕ → Bool
is_all_zero (a ∷ b ∷ c ∷ d ∷ []) = a == 0 && b == 0 && c == 0 && d == 0
is_all_zero _ = false

abbrev pub is_normal : List ℕ → Bool
is_normal (a ∷ b ∷ c ∷ d ∷ []) = not (a == 0 && b == 0 && c == 0 && d == 0)
is_normal _ = false

-- The rows that allZeroIndex and normalIndex select.
abbrev pub select : (List ℕ → Bool) → List (List ℕ) → List (List ℕ)
select test [] = []
select test (row ∷ rows) = if test row then row ∷ select test rows else select test rows

module _ (ct : CardTypes) where
  abbrev pub max_value : ℕ → ℕ
  max_value type = if type == ct.z then 8 else 10

  -- possibleCards for the suits from index `i` on.
  unfoldable pub possible_cards : List ℕ → ℕ → List Pattern
  possible_cards [] i = []
  possible_cards (m ∷ ms) i = replicate m (i + 1, max_value (i + 1)) ++ possible_cards ms (i + 1)

-- `sort` is Go's sort.Sort by Cards4Sort.
module _ (ct : CardTypes) (sort : List CardInformation → List CardInformation) where
  unfoldable pub ana_wild_3np2_cards_opt2 :
      List CardInformation → List CardInformation → Outcome Bool
  ana_wild_3np2_cards_opt2 no_wild_cards wild_cards =
      split002 ct (sort (no_wild_cards ++ wild_cards)) new_analyser >>= λ (is_hu, ha). ok is_hu

  module _ (no_wild_cards : List CardInformation) where
    abbrev ana : List CardInformation → Outcome Bool
    ana = ana_wild_3np2_cards_opt2 no_wild_cards

    unfoldable pub single_loop : Pattern → Outcome Bool
    single_loop (t0, m0) = value_loop (m0 - 1) 1 (λ x. ana (card t0 x ∷ []))

    unfoldable pub double_loop : Pattern → Pattern → Outcome Bool
    double_loop (t0, m0) (t1, m1) =
        value_loop (m0 - 1) 1 (λ x. value_loop (m1 - 1) 1 (λ y. ana (card t0 x ∷ card t1 y ∷ [])))

    unfoldable pub triple_loop : Pattern → Pattern → Pattern → Outcome Bool
    triple_loop (t0, m0) (t1, m1) (t2, m2) = value_loop (m0 - 1) 1 (λ x.
        value_loop (m1 - 1) 1
          (λ y. value_loop (m2 - 1) 1 (λ z. ana (card t0 x ∷ card t1 y ∷ card t2 z ∷ []))))

    unfoldable pub by_possible_cards : List Pattern → Outcome Bool
    by_possible_cards (p ∷ []) = single_loop p
    by_possible_cards (p ∷ q ∷ []) = double_loop p q
    by_possible_cards (p ∷ q ∷ r ∷ []) = triple_loop p q r
    by_possible_cards _ = ok false

    unfoldable pub exhaustion_4_wild_3np2_cards_opt : List ℕ → Outcome Bool
    exhaustion_4_wild_3np2_cards_opt men_ana = by_possible_cards (possible_cards ct men_ana 0)

    unfoldable pub exhaustion_all_zero_wild_3np2_cards_opt : Outcome Bool
    exhaustion_all_zero_wild_3np2_cards_opt =
        range_loop (λ p. triple_loop p p p) ((ct.w, 10) ∷ (ct.t, 10) ∷ (ct.s, 10) ∷ (ct.z, 8) ∷ [])

    unfoldable pub ana_3np2_wild_men_cards_opt : ℕ → List (List ℕ) → Outcome Bool
    ana_3np2_wild_men_cards_opt wild_num men_ana =
        if wild_num == 0
        then ok false
        else (range_loop exhaustion_4_wild_3np2_cards_opt (select is_normal men_ana) >>= λ is_hu.
            if is_hu
            then ok true
            else range_loop (λ row. exhaustion_all_zero_wild_3np2_cards_opt)
                (select is_all_zero men_ana))

    unfoldable pub analyze_3np2_wild_cards : ℕ → Outcome Bool
    analyze_3np2_wild_cards wild_num =
        pre_ana_3np2_wild_cards no_wild_cards wild_num >>= ana_3np2_wild_men_cards_opt wild_num
