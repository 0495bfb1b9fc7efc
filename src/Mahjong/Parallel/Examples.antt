-- ===== src/Mahjong/Parallel/Examples.antt =====
-- The search by goroutines on small hands.
use common_fw.Common.{
  ℕ, ◌≡◌, refl, ◌⊎◌, inl, inr, Bool, true, false, some, List, [], ◌∷◌, ◌≤◌, ok, arith,
}
use mathlib.Core.List.Permᴰ
use common_fw.Mahjong.Cards.{CardInformation, card, is_7_dui}
use common_fw.Mahjong.Hand.Normal.{IsStandardWin, IsSevenPairs}
use common_fw.Mahjong.Wild.{
  exclud_card, exhaustion_4_wild_3np2_cards_opt, pre_ana_3np2_wild_cards, men_group,
  by_possible_cards, possible_cards, single_loop, value_loop, ana_wild_3np2_cards_opt2,
}
use common_fw.Mahjong.Hand.{split002, recursive3np2, init}
use common_fw.Mahjong.Analyser.{first_level, pair_suit_loop, others_loop, split3np2, pair_loop}
use common_fw.Mahjong.Wild.Search.{Any}
use common_fw.Mahjong.Wild.Sound.{CanWin}
use common_fw.Mahjong.Parallel.{
  Race, start, Step, Steps, done, then_step, works, here, writes, breaks, sent, leaves, receives,
  wins, gives, returned, number_of,
}
use common_fw.Mahjong.Parallel.Sound.{IsTrue, Steps-IsFound}
use common_fw.Mahjong.Parallel.Ending.{step_bound, IsFinished, Steps-IsBounded}
use common_fw.Mahjong.Parallel.Lost.{Steps-loses}
use common_fw.Mahjong.Parallel.Search.{
  Analyze3Np2WildCardsOpt, by_rows, AnalyzeWildCards, some_wild,
}
use common_fw.Mahjong.Parallel.Wins.{AnalyzeWildCards-wins}
use common_fw.Mahjong.Examples.{numbers, numbers-IsNumbered}

abbrev one_branch : List (List Bool)
one_branch = (true ∷ []) ∷ []

abbrev end : Race
end = record { is_hu = true; workers = []; res_chan = []; caller = returned true }

one_run : (capacity : ℕ) → 1 ≤ capacity → Steps capacity (start one_branch) end
one_run capacity h = then_step (works [] _ (here [] (writes false true []))) (
    then_step (works [] _ (here [] (breaks []))) (
      then_step (sent true [] _ (leaves []) (omega arith)) (
        then_step (receives true true [] [] 1)
          (then_step (wins [] [] 1) (then_step (gives true [] []) (done end))))))

Steps-IsFound_example : Any (Any IsTrue) one_branch
Steps-IsFound_example = Steps-IsFound 10 one_branch end (one_run 10 (omega arith)) refl

Steps-IsBounded_example :
    (number_of 10 (one_run 10 (omega arith)) ≤ step_bound one_branch)
    × (IsFinished end ⊎ ((u : Race) × Step 10 end u))
Steps-IsBounded_example = Steps-IsBounded 10 one_branch end (omega arith) (one_run 10 (omega arith))

-- A goroutine that finds a win, and one that finds none.
abbrev two_branches : List (List Bool)
two_branches = (true ∷ []) ∷ (false ∷ false ∷ []) ∷ []

Steps-loses_example : (s : Race) × Steps 10 (start two_branches) s × (s.caller ≡ returned false)
Steps-loses_example =
    Steps-loses 10 two_branches (omega arith) (inr (inl ((refl, (refl, tt)), omega arith)))

-- An honour and a wild card.
abbrev one_wild : List CardInformation
one_wild = card 4 1 ∷ []

one_wild_rows : pre_ana_3np2_wild_cards one_wild 1 ≡ ok ([] ∷ [] ∷ [] ∷ (0 ∷ 0 ∷ 0 ∷ 1 ∷ []) ∷ [])
unfolding pre_ana_3np2_wild_cards men_group
one_wild_rows = refl

one_wild_wins :
    exhaustion_4_wild_3np2_cards_opt numbers (λ ts. ts) one_wild (0 ∷ 0 ∷ 0 ∷ 1 ∷ []) ≡ ok true
unfolding exhaustion_4_wild_3np2_cards_opt by_possible_cards possible_cards single_loop value_loop
    ana_wild_3np2_cards_opt2 split002 recursive3np2 init first_level pair_suit_loop others_loop
    split3np2 pair_loop
one_wild_wins = refl

one_wild_run : Analyze3Np2WildCardsOpt numbers (λ ts. ts) one_wild 1 true
one_wild_run = (
  [] ∷ [] ∷ [] ∷ (0 ∷ 0 ∷ 0 ∷ 1 ∷ []) ∷ [],
  one_wild_rows,
  by_rows (true ∷ []) [] refl (one_wild_wins, tt) tt
      (one_branch, refl, end, one_run 100 (omega arith), refl),
)

abbrev with_wild : List CardInformation
with_wild = card 1 1 ∷ card 4 1 ∷ []

with_wild_count : (exclud_card with_wild (some (card 1 1))).1 ≡ 1
unfolding exclud_card
with_wild_count = refl

with_wild_run : AnalyzeWildCards numbers (λ ts. ts) with_wild (some (card 1 1)) true
unfolding exclud_card is_7_dui
with_wild_run = some_wild true false refl refl one_wild_run refl refl

AnalyzeWildCards-wins_example :
    ((exclud_card with_wild (some (card 1 1))).1 ≡ 4)
    ⊎ IsSevenPairs with_wild
    ⊎ IsStandardWin with_wild
    ⊎ CanWin (exclud_card with_wild (some (card 1 1))).0 (exclud_card with_wild (some (card 1 1))).1
AnalyzeWildCards-wins_example =
    AnalyzeWildCards-wins numbers numbers-IsNumbered (λ ts. ts) Permᴰ.refl with_wild (card 1 1)
      (omega arith) (assumption (refl, tt)) refl (omega (arith, with_wild_count)) with_wild_run
