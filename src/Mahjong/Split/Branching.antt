-- ===== src/Mahjong/Split/Branching.antt =====
-- component/mjana/mjana.go: what the triplet and pair branches of Split take from the hand.
use common_fw.Common.{◌-◌, Option, none, some, inl, inr, List, [], ◌∷◌, arith, All, Bool-cases}
use common_fw.Mahjong.Cards.{CardInformation, same}
use common_fw.Mahjong.Hand.Counting.{IsTile}
use common_fw.Mahjong.Split.{AnalyzeResult, result, triple_branch, pair_branch}
use common_fw.Mahjong.Split.Conservation.{
  tally-nil, Accounts, Branches, triple-Branches, pair-Branches,
}

abbrev pub OnSome : (AnalyzeResult → Type 0) → Option AnalyzeResult → Type 0
OnSome P none = Unit
OnSome P (some r) = P r

pub triple_branch-Branches :
    (ts : List CardInformation) → All IsTile ts → OnSome (Branches ts) (triple_branch ts)
unfolding triple_branch
triple_branch-Branches [] t = tt
triple_branch-Branches (a ∷ []) t = tt
triple_branch-Branches (a ∷ b ∷ []) t = tt
triple_branch-Branches (a ∷ b ∷ c ∷ ts) t = elim (Bool-cases (same a b)) [
  | inr e ↦ rw e tt
  | inl e ↦ elim (Bool-cases (same b c)) [
    | inr f ↦ rw (e, f) tt
    | inl f ↦ let branch = triple-Branches a b c ts t e f in rw (e, f) branch
  ]
]

pub pair_branch-Branches :
    (ts : List CardInformation) → All IsTile ts → OnSome (Branches ts) (pair_branch ts)
unfolding pair_branch
pair_branch-Branches [] t = tt
pair_branch-Branches (a ∷ []) t = tt
pair_branch-Branches (a ∷ b ∷ ts) t = elim (Bool-cases (same a b)) [
  | inr e ↦ rw e tt
  | inl e ↦ let branch = pair-Branches a b ts t e in rw e branch
]

pub leaf-Accounts : (ts : List CardInformation) → All IsTile ts → Accounts ts (result [] [] [] ts)
leaf-Accounts ts t = record {
  counts = λ k j h. ground (arith, tally-nil k j, tally-nil k (j - 1), tally-nil k (j - 2));
  total = omega arith;
  runs = tt;
  pairs = tt;
  rest = t;
}
