-- ===== src/Mahjong/Wild/Complete.antt =====
-- Analyze3NP2WildCards finds a win exactly if some choice of tiles for the wild cards wins.
use common_fw.Common.{ℕ, ◌+◌, ◌%◌, ◌≤◌, ◌≡◌, false, List, ◌==◌, length, arith, All}
use mathlib.Core.List.{Permᴰ}
use common_fw.Mahjong.Cards.{CardInformation, CardTypes, IsNumbered}
use common_fw.Mahjong.Hand.Counting.{IsTile}
use common_fw.Mahjong.Wild.{
  is_normal, is_all_zero, select, pre_ana_3np2_wild_cards, exhaustion_4_wild_3np2_cards_opt,
  exhaustion_all_zero_wild_3np2_cards_opt, ana_3np2_wild_men_cards_opt, analyze_3np2_wild_cards,
}
use common_fw.Mahjong.Wild.Search.{Tells, Tells-iff, either-Tells, range_loop-Tells}
use common_fw.Mahjong.Wild.Needs.{Grouped, men_group-Grouped}
use common_fw.Mahjong.Wild.Select.{All-select}
use common_fw.Mahjong.Wild.Choices.{Chosen, Three, all_rows, CanWin-found, found-CanWin}
use common_fw.Mahjong.Wild.Sound.{CanWin, all_zero-Tells, normal-Tells}

module _ (ct : CardTypes) (numbered : IsNumbered ct)
    (sort : List CardInformation → List CardInformation)
    (sorts : (ts : List CardInformation) → Permᴰ (sort ts) ts) (nw : List CardInformation)
    (tiles : All IsTile nw) where
  module _ (n : ℕ) (low : 1 ≤ n) (high : n ≤ 3) (total : (length nw + n) % 3 ≡ 2)
      (g : ℕ → List CardInformation) (grouped : Grouped nw g) where
    abbrev normal_rows : List (List ℕ)
    normal_rows =
        select is_normal (all_rows ct numbered sort sorts nw tiles n low high total g grouped)

    abbrev all_zero_rows : List (List ℕ)
    all_zero_rows =
        select is_all_zero (all_rows ct numbered sort sorts nw tiles n low high total g grouped)

    pub normal_rows-Tell :
        All
          (λ row.
            Tells
              (Chosen ct numbered sort sorts nw tiles row)
              (exhaustion_4_wild_3np2_cards_opt ct sort nw row))
          normal_rows
    normal_rows-Tell =
        let tell = normal-Tells ct numbered sort sorts nw tiles n low high total g grouped in
        All-select _ is_normal (all_rows ct numbered sort sorts nw tiles n low high total g grouped)
          (tell 0, (tell 1, (tell 2, (tell 3, tt))))

    all_zero_rows-Tell :
        All
          (λ row.
            Tells
              (Three ct numbered sort sorts nw tiles)
              (exhaustion_all_zero_wild_3np2_cards_opt ct sort nw))
          all_zero_rows
    all_zero_rows-Tell =
        let tell = all_zero-Tells ct numbered sort sorts nw tiles in
        All-select _ is_all_zero
          (all_rows ct numbered sort sorts nw tiles n low high total g grouped)
          ((λ _. tell), ((λ _. tell), ((λ _. tell), ((λ _. tell), tt))))

    rows-Tells : Tells (CanWin nw n) (
        ana_3np2_wild_men_cards_opt ct sort nw n
          (all_rows ct numbered sort sorts nw tiles n low high total g grouped))
    unfolding ana_3np2_wild_men_cards_opt
    rows-Tells =
        let nonzero : (n == 0) ≡ false = ground arith in
        rw nonzero (
          Tells-iff (found-CanWin ct numbered sort sorts nw tiles n low high total g grouped)
            (CanWin-found ct numbered sort sorts nw tiles n low high total g grouped)
            (either-Tells _ _
              (range_loop-Tells (Chosen ct numbered sort sorts nw tiles) _ normal_rows
                normal_rows-Tell)
              (range_loop-Tells (λ row. Three ct numbered sort sorts nw tiles) _ all_zero_rows
                all_zero_rows-Tell)))

  -- On tiles, with one to three wild cards that make the hand one of 3n + 2 cards, the search ends
  -- without a panic and says yes exactly if some tiles for the wild cards complete the hand to a
  -- pair, triplets and runs.
  pub analyze_3np2_wild_cards_lem :
      (n : ℕ)
      → 1 ≤ n
      → n ≤ 3
      → (length nw + n) % 3 ≡ 2
      → Tells (CanWin nw n) (analyze_3np2_wild_cards ct sort nw n)
  unfolding analyze_3np2_wild_cards pre_ana_3np2_wild_cards
  analyze_3np2_wild_cards_lem n low high total =
      let (g, e, grouped) = men_group-Grouped nw tiles in
      let nonzero : (n == 0) ≡ false = ground arith in
      rw (nonzero, e) (rows-Tells n low high total g grouped)
