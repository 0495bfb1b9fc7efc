-- ===== src/Mahjong/Split.antt =====
-- component/mjana/mjana.go: Split, the division of a sorted hand by goroutines that try each way to
-- use its first card, and AnalyzeNormalCards and SplitOpt, which look through the results.
pub mod Runs
pub mod Conservation
pub mod Branching
pub mod Results
pub mod Normal
mod Examples
use common_fw.Common.{
  ℕ, zero, suc, ◌+◌, ◌-◌, ◌/◌, ◌%◌, ◌^◌, Bool, true, false, not, ◌&&◌, ◌||◌, Option, none, some,
  List, [], ◌∷◌, ◌++◌, ltb, ◌==◌, if◌then◌else◌, length, take, drop, Outcome, ok, stuck, ◌>>=◌,
}
use common_fw.Mahjong.Cards.{CardInformation, CardTypes, same}

-- common.AnalyzeResult, the fields that the code uses. A run stands by its first card.
pub record AnalyzeResult : Type 0 where
  pub seqs : List CardInformation
  pub twos : List CardInformation
  pub threes : List CardInformation
  pub left : List CardInformation

abbrev pub result :
    List CardInformation
    → List CardInformation
    → List CardInformation
    → List CardInformation
    → AnalyzeResult
result seqs twos threes left = record { seqs = seqs; twos = twos; threes = threes; left = left }

-- findSeq's loop on the cards from index `i + 1` on: `second` is idx[1] once it is found, `last` the
-- value of the card that was found last. The difference is one of uint32.
unfoldable pub seq_loop : CardInformation → List CardInformation → ℕ → Option ℕ → ℕ → Option (ℕ × ℕ)
seq_loop first [] i second last = none
seq_loop first (v ∷ vs) i second last =
    let diff = (v.value + (2 ^ 32 - last)) % 2 ^ 32 in
    let found = seq_loop first vs (i + 1) (some (i + 1)) v.value in
    let stay = seq_loop first vs (i + 1) second last in
    if not (v.type == first.type) || ltb 1 diff
    then none
    else (if diff == 1 then elim second [ none ↦ found | some j ↦ some (j, i + 1) ] else stay)

-- The slice `ts[a:b]`, for indices of the hand.
abbrev pub slice : ℕ → ℕ → List CardInformation → List CardInformation
slice a b ts = drop a (take b ts)

-- What is left of the hand without the run at the indices 0, `a` and `b`.
abbrev pub without : ℕ → ℕ → List CardInformation → List CardInformation
without a b ts = if b == 2 then drop 3 ts else slice 1 a ts ++ slice (a + 1) b ts ++ drop (b + 1) ts

-- The three branches: what a goroutine takes from the hand, and what it leaves.
unfoldable pub triple_branch : List CardInformation → Option AnalyzeResult
triple_branch (a ∷ b ∷ c ∷ ts) =
    if same a b && same b c then some (result [] [] (a ∷ []) ts) else none
triple_branch _ = none

-- A hand that begins with a triplet begins with a pair as well: `hit` adds nothing.
unfoldable pub pair_branch : List CardInformation → Option AnalyzeResult
pair_branch (a ∷ b ∷ ts) = if same a b then some (result [] (a ∷ []) [] ts) else none
pair_branch _ = none

-- merge adds what a branch took to every result of what it left.
abbrev pub merge_one : AnalyzeResult → AnalyzeResult → AnalyzeResult
merge_one x v = result (v.seqs ++ x.seqs) (v.twos ++ x.twos) (v.threes ++ x.threes) v.left

abbrev pub merge : AnalyzeResult → List AnalyzeResult → List AnalyzeResult
merge x [] = []
merge x (v ∷ vs) = merge_one x v ∷ merge x vs

-- subSplit, where the branch is taken: what it sends, with `split` for the recursive call.
abbrev pub sub_split :
    (List CardInformation → Outcome (List AnalyzeResult))
    → Option AnalyzeResult
    → Outcome (List (List AnalyzeResult))
sub_split split none = ok []
sub_split split (some r) = split r.left >>= λ xs. ok (merge r xs ∷ [])

abbrev pub join : List (List AnalyzeResult) → List AnalyzeResult
join [] = []
join (rs ∷ rss) = rs ++ join rss

-- A result without rest of (length + 1) / 3 - 1 triplets and runs and one pair. The subtraction
-- is written so that -1, which no number of them is, stays different from all.
abbrev pub is_3n_plus_2 : ℕ → AnalyzeResult → Bool
is_3n_plus_2 hand_len v =
    length v.left == 0
    && length v.seqs + length v.threes + 1 == (hand_len + 1) / 3
    && length v.twos == 1

abbrev pub is_7_pairs : ℕ → AnalyzeResult → Bool
is_7_pairs hand_len v =
    length v.left == 0 && (hand_len == 14 && length v.seqs == 0 && length v.twos == 7)

abbrev pub any_result : (AnalyzeResult → Bool) → List AnalyzeResult → Bool
any_result test [] = false
any_result test (v ∷ vs) = if test v then true else any_result test vs

module _ (ct : CardTypes) where
  unfoldable pub find_seq : List CardInformation → Option (ℕ × ℕ)
  find_seq [] = none
  find_seq (first ∷ ts) =
      if ltb (length (first ∷ ts)) 3
      then none
      else (if first.type == ct.z then none else seq_loop first ts 0 none first.value)

  unfoldable pub seq_branch : List CardInformation → Option AnalyzeResult
  seq_branch ts = elim (find_seq ts) [
    | none ↦ none
    | some (a, b) ↦ some (result (take 1 ts) [] [] (without a b ts))
  ]

  -- `arrive` is the order in which the results of the branches come out of the channel. It depends
  -- on the goroutine, named by the numbers of its branch and of those that started it.
  module _ (arrive : List ℕ → List (List AnalyzeResult) → List (List AnalyzeResult)) where
    -- What the goroutine receives; without a branch the whole hand is left.
    abbrev pub receive :
        List ℕ → List CardInformation → List (List AnalyzeResult) → List AnalyzeResult
    receive path ts [] = result [] [] [] ts ∷ []
    receive path ts (rs ∷ rss) = join (arrive path (rs ∷ rss))

    -- On fuel: each branch leaves fewer cards.
    unfoldable pub split : ℕ → List ℕ → List CardInformation → Outcome (List AnalyzeResult)
    split zero path ts = stuck
    split (suc fuel) path ts = sub_split (split fuel (0 ∷ path)) (seq_branch ts) >>= λ seq.
        sub_split (split fuel (1 ∷ path)) (triple_branch ts) >>= λ triple.
        sub_split (split fuel (2 ∷ path)) (pair_branch ts) >>= λ pair.
        ok (receive path ts (seq ++ triple ++ pair))

    unfoldable pub analyze_normal_cards : List CardInformation → Outcome Bool
    analyze_normal_cards hand_cards = split (suc (length hand_cards)) [] hand_cards >>= λ ana_res.
        ok (
          any_result (λ v. is_3n_plus_2 (length hand_cards) v || is_7_pairs (length hand_cards) v)
            ana_res)

    -- SplitOpt's loop takes results until one is a win; without a branch there are none.
    abbrev pub received_opt : List (List AnalyzeResult) → List AnalyzeResult
    received_opt [] = []
    received_opt (rs ∷ rss) = join (arrive [] (rs ∷ rss))

    unfoldable pub split_opt : List CardInformation → Outcome Bool
    split_opt ts = sub_split (split (length ts) (0 ∷ [])) (seq_branch ts) >>= λ seq.
        sub_split (split (length ts) (1 ∷ [])) (triple_branch ts) >>= λ triple.
        sub_split (split (length ts) (2 ∷ [])) (pair_branch ts) >>= λ pair.
        ok (any_result (is_3n_plus_2 (length ts)) (received_opt (seq ++ triple ++ pair)))
