-- ===== src/Mahjong/Split/Examples.antt =====
-- Runs of Split and AnalyzeNormalCards on a concrete hand, and their theorems there.
use common_fw.Common.{ℕ, ◌≡◌, refl, true, some, List, ok}
use mathlib.Core.List.Permᴰ
use common_fw.Mahjong.Examples.{numbers, winning_hand}
use common_fw.Mahjong.Split.{
  AnalyzeResult, seq_loop, find_seq, seq_branch, triple_branch, pair_branch, split, split_opt,
  analyze_normal_cards,
}

-- Results arrive in the order in which the branches were started.
abbrev in_order : List ℕ → List (List AnalyzeResult) → List (List AnalyzeResult)
in_order path rss = rss

find_seq-winning_hand : find_seq numbers winning_hand ≡ some (1, 2)
unfolding find_seq seq_loop
find_seq-winning_hand = refl

analyze_normal_cards-winning_hand : analyze_normal_cards numbers in_order winning_hand ≡ ok true
unfolding analyze_normal_cards split seq_branch triple_branch pair_branch find_seq seq_loop
analyze_normal_cards-winning_hand = refl

split_opt-winning_hand : split_opt numbers in_order winning_hand ≡ ok true
unfolding split_opt split seq_branch triple_branch pair_branch find_seq seq_loop
split_opt-winning_hand = refl
