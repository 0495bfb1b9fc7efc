-- ===== src/Mahjong/Examples.antt =====
-- Runs of the analysis on concrete hands, and its theorems at such hands.
use common_fw.Common.{◌≡◌, refl, ◌⊎◌, true, false, List, [], ◌∷◌, ok, arith, All}
use mathlib.Core.List.Permᴰ
use common_fw.Mahjong.Cards.{CardInformation, CardTypes, IsNumbered, card, is_7_dui}
use common_fw.Mahjong.Cards.SevenPairs.{IsSorted}
use common_fw.Mahjong.Analyser.{
  split3np2, first_level, pair_suit_loop, others_loop, first_nonzero, pair_loop,
}
use common_fw.Mahjong.Analyser.Decomposition.{IsConsistent}
use common_fw.Mahjong.Analyser.SplitRow.{Decides, split3np2-Decides}
use common_fw.Mahjong.Analyser.Loops.{Answers}
use common_fw.Mahjong.Analyser.FirstLevel.{Wins, first_level-Answers}
use common_fw.Mahjong.Hand.{init, split001, split002, recursive3np2, analyze_normal_cards_opt}
use common_fw.Mahjong.Hand.Counting.{IsTile, tally, counters, counters-IsCounted}
use common_fw.Mahjong.Hand.Normal.{IsStandardWin, IsSevenPairs, analyze_normal_cards_opt_lem}
use common_fw.Mahjong.Wild.{
  analyze_3np2_wild_cards, pre_ana_3np2_wild_cards, men_group, ana_3np2_wild_men_cards_opt,
  range_loop, exhaustion_4_wild_3np2_cards_opt, by_possible_cards, possible_cards, single_loop,
  double_loop, triple_loop, exhaustion_all_zero_wild_3np2_cards_opt, value_loop,
  ana_wild_3np2_cards_opt2,
}
use common_fw.Mahjong.Wild.Search.{Tells}
use common_fw.Mahjong.Wild.Sound.{CanWin}
use common_fw.Mahjong.Wild.Complete.{analyze_3np2_wild_cards_lem}

abbrev pub numbers : CardTypes
numbers = record { w = 1; t = 2; s = 3; z = 4 }

abbrev pub numbers-IsNumbered : IsNumbered numbers
numbers-IsNumbered = record { w_one = refl; t_two = refl; s_three = refl; z_four = refl }

-- 1 2 3, 3 3 3 of one suit, and two of an honour.
abbrev pub winning_hand : List CardInformation
winning_hand =
    card 1 1 ∷ card 1 2 ∷ card 1 3 ∷ card 1 3 ∷ card 1 3 ∷ card 1 3 ∷ card 4 7 ∷ card 4 7 ∷ []

pub winning_hand-IsTile : All IsTile winning_hand
winning_hand-IsTile = omega arith

winning-IsSorted : IsSorted winning_hand
winning-IsSorted = assumption (refl, tt)

winning_counted : IsConsistent (tally winning_hand 0)
winning_counted = counters-IsCounted winning_hand winning_hand-IsTile 0 (omega arith)

split3np2-Decides_example : Decides 0 (tally winning_hand 0) (split3np2 7 0 (tally winning_hand 0))
unfolding tally
split3np2-Decides_example =
    split3np2-Decides 7 0 (tally winning_hand 0) winning_counted (omega arith)

first_level-Answers_example :
    Answers
      (Wins (counters winning_hand))
      (counters winning_hand)
      (first_level (counters winning_hand))
first_level-Answers_example =
    first_level-Answers (counters winning_hand)
      (counters-IsCounted winning_hand winning_hand-IsTile)

analyze_normal_cards_opt_lem_example :
    ((IsSevenPairs winning_hand ⊎ IsStandardWin winning_hand)
      × (analyze_normal_cards_opt numbers winning_hand ≡ ok true))
    ⊎ ((¬ (IsSevenPairs winning_hand ⊎ IsStandardWin winning_hand))
        × (analyze_normal_cards_opt numbers winning_hand ≡ ok false))
analyze_normal_cards_opt_lem_example =
    analyze_normal_cards_opt_lem numbers numbers-IsNumbered winning_hand winning_hand-IsTile
      winning-IsSorted

-- The pair of honours with one tile and two wild cards.
abbrev two_wild : List CardInformation
two_wild = card 2 4 ∷ card 4 7 ∷ card 4 7 ∷ []

analyze_3np2_wild_cards_lem_example :
    Tells (CanWin two_wild 2) (analyze_3np2_wild_cards numbers (λ ts. ts) two_wild 2)
analyze_3np2_wild_cards_lem_example =
    analyze_3np2_wild_cards_lem numbers numbers-IsNumbered (λ ts. ts) Permᴰ.refl two_wild
      (omega arith) 2 (omega arith) (omega arith) (omega arith)

-- The analysis runs: this hand wins, and without one honour it does not.
winning_hand_run : analyze_normal_cards_opt numbers winning_hand ≡ ok true
unfolding analyze_normal_cards_opt split001 recursive3np2 is_7_dui init first_level split3np2
    pair_suit_loop others_loop first_nonzero pair_loop
winning_hand_run = refl

single_honour_run :
    analyze_normal_cards_opt numbers (card 1 1 ∷ card 1 2 ∷ card 1 3 ∷ card 4 7 ∷ []) ≡ ok false
unfolding analyze_normal_cards_opt split001 recursive3np2 is_7_dui init first_level split3np2
    pair_suit_loop others_loop first_nonzero pair_loop
single_honour_run = refl

-- A wild card completes the run of 1 and 3.
wild_run :
    analyze_3np2_wild_cards numbers (λ ts. ts) (card 1 1 ∷ card 1 3 ∷ card 4 7 ∷ card 4 7 ∷ []) 1
    ≡ ok true
unfolding analyze_3np2_wild_cards pre_ana_3np2_wild_cards men_group ana_3np2_wild_men_cards_opt
    range_loop exhaustion_4_wild_3np2_cards_opt by_possible_cards possible_cards single_loop
    double_loop triple_loop exhaustion_all_zero_wild_3np2_cards_opt value_loop
    ana_wild_3np2_cards_opt2 split002 recursive3np2 init first_level pair_suit_loop others_loop
    pair_loop first_nonzero split3np2
wild_run = refl
