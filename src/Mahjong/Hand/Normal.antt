-- ===== src/Mahjong/Hand/Normal.antt =====
-- AnalyzeNormalCardsOpt and Split002 against the definition of a winning hand.
use common_fw.Common.{◌≡◌, refl, ◌⊎◌, inl, inr, true, false, List, ok, All, length}
use common_fw.Mahjong.Cards.{CardInformation, CardTypes, IsNumbered}
use common_fw.Mahjong.Cards.SevenPairs.{IsSorted, IsPaired, is_7_dui_lem}
use common_fw.Mahjong.Analyser.Loops.{Answers, holds, fails}
use common_fw.Mahjong.Analyser.FirstLevel.{Wins, first_level-Answers}
use common_fw.Mahjong.Hand.{
  new_analyser, recursive3np2, split001, split002, analyze_normal_cards_opt,
}
use common_fw.Mahjong.Hand.Counting.{IsTile, counters, init-new, counters-IsCounted}

-- A hand of 3n + 2 tiles in a pair, triplets and runs.
abbrev pub IsStandardWin : List CardInformation → Type 0
IsStandardWin ts = Wins (counters ts)

abbrev pub IsSevenPairs : List CardInformation → Type 0
IsSevenPairs ts = (length ts ≡ 14) × IsPaired ts

module _ (ct : CardTypes) (numbered : IsNumbered ct) (ts : List CardInformation)
    (tiles : All IsTile ts) where
  pub recursive3np2-Answers :
      Answers (IsStandardWin ts) (counters ts) (recursive3np2 ct ts new_analyser)
  unfolding recursive3np2
  recursive3np2-Answers =
      rw (init-new ct numbered ts tiles)
        (first_level-Answers (counters ts) (counters-IsCounted ts tiles))

  -- Split002, on new counters, answers whether a hand of tiles is a pair and triplets and runs.
  pub split002-Answers : Answers (IsStandardWin ts) (counters ts) (split002 ct ts new_analyser)
  unfolding split002
  split002-Answers = elim recursive3np2-Answers [
    | holds w e ↦ holds w (rw e refl)
    | fails w e ↦ fails w (rw e refl)
  ]

  -- AnalyzeNormalCardsOpt ends without a panic on sorted tiles, and says yes exactly if they are
  -- seven pairs or a pair and triplets and runs.
  pub analyze_normal_cards_opt_lem :
      IsSorted ts
      → ((IsSevenPairs ts ⊎ IsStandardWin ts) × (analyze_normal_cards_opt ct ts ≡ ok true))
        ⊎ ((¬ (IsSevenPairs ts ⊎ IsStandardWin ts)) × (analyze_normal_cards_opt ct ts ≡ ok false))
  unfolding analyze_normal_cards_opt split001
  analyze_normal_cards_opt_lem s = elim (is_7_dui_lem ts s) [
    | inl (l, p, e) ↦ inl (inl (l, p), rw e refl)
    | inr (n, e) ↦ elim recursive3np2-Answers [
      | holds w q ↦ inl (inr w, rw (e, q) refl)
      | fails w q ↦ inr (elim [ inl d ↦ n d | inr d ↦ w d ], rw (e, q) refl)
    ]
  ]
