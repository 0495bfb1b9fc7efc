-- ===== src/Mahjong/Split/Normal.antt =====
-- AnalyzeNormalCards says yes only to winning hands.
use common_fw.Common.{
  ℕ, suc, ◌+◌, ◌-◌, ◌*◌, ◌≤◌, ◌≡◌, refl, ◌==◌, ◌&&◌, ◌||◌, Bool, true, inl, inr, ◌⊎◌, List, [], ◌∷◌,
  ◌++◌, if◌then◌else◌, length, arith, All, Bool-cases, ok,
}
use mathlib.Core.List.{Permᴰ}
use common_fw.Mahjong.Cards.{CardInformation, CardTypes, IsNumbered}
use common_fw.Mahjong.Cards.SevenPairs.{count, IsPaired}
use common_fw.Mahjong.Hand.Counting.{IsTile, tally}
use common_fw.Mahjong.Hand.Normal.{IsStandardWin, IsSevenPairs}
use common_fw.Mahjong.Split.{
  AnalyzeResult, result, is_3n_plus_2, is_7_pairs, any_result, received_opt, split_opt,
  analyze_normal_cards,
}
use common_fw.Mahjong.Split.Conservation.{Accounts, IsRunStart, starts, tally-nil}
use common_fw.Mahjong.Split.Results.{
  IsDivision, split-Divides, three_branches, received_opt-IsDivision,
}

starts-high : (cs : List CardInformation) (k j : ℕ) → All IsRunStart cs → 8 ≤ j → starts cs k j ≡ 0
unfolding tally
starts-high [] k j h l = ground arith
starts-high (c ∷ cs) k j h l = ground (arith, starts-high cs k j h.1 l, h.0.2)

starts-honours : (cs : List CardInformation) (j : ℕ) → All IsRunStart cs → starts cs 3 j ≡ 0
unfolding tally
starts-honours [] j h = ground arith
starts-honours (c ∷ cs) j h = ground (arith, starts-honours cs j h.1, h.0.1)

count-tally :
    (c : CardInformation) (ts : List CardInformation)
    → All IsTile ts
    → count c ts ≡ (if c.type == 0 || c.value == 0 then 0 else tally ts (c.type - 1) c.value)
unfolding count tally
count-tally c [] t = ground arith
count-tally c (d ∷ ds) t = ground (arith, count-tally c ds t.1, t.0)

tally-other :
    (p : CardInformation) (k j : ℕ)
    → IsTile p
    → 1 ≤ j
    → tally (p ∷ []) k j ≡ (if (k == p.type - 1) && (j == p.value) then 1 else 0)
unfolding tally
tally-other p k j t h = ground arith

module _ (ts seqs threes : List CardInformation) (p : CardInformation)
    (a : Accounts ts (result seqs (p ∷ []) threes [])) where
  suit_counts :
      (k j : ℕ)
      → 1 ≤ j
      → tally ts k j
        ≡ 3 * tally threes k j
          + starts seqs k j
          + starts seqs k (j - 1)
          + starts seqs k (j - 2)
          + (if (k == p.type - 1) && (j == p.value) then 2 else 0)
  suit_counts k j h = ground (arith, a.counts k j h, tally-other p k j a.pairs.0 h, tally-nil k j)

  division_wins : IsStandardWin ts
  division_wins = record {
    suit = p.type - 1;
    value = p.value;
    suit_bound = let t = a.pairs.0 in omega arith;
    value_low = let t = a.pairs.0 in omega arith;
    value_high = let t = a.pairs.0 in omega arith;
    pair = let t = a.pairs.0 in ground (arith, suit_counts (p.type - 1) p.value (omega arith));
    rest = record {
      triplets = tally threes (p.type - 1);
      runs = starts seqs (p.type - 1);
      no_run_below = refl;
      no_run_above = λ j h. starts-high seqs _ j a.runs h;
      no_honour_run = λ e j. rw e (starts-honours seqs j a.runs);
      counts = λ j low high. ground (arith, suit_counts (p.type - 1) j low);
    };
    others = λ k hk n. record {
      triplets = tally threes k;
      runs = starts seqs k;
      no_run_below = refl;
      no_run_above = λ j h. starts-high seqs _ j a.runs h;
      no_honour_run = λ e j. rw e (starts-honours seqs j a.runs);
      counts = λ j low high. ground (arith, suit_counts k j low);
    };
  }

division_pairs :
    (ts twos : List CardInformation)
    → All IsTile ts
    → Accounts ts (result [] twos [] [])
    → IsPaired ts
division_pairs ts twos t a c = elim (Bool-cases (c.type == 0 || c.value == 0)) [
  | inl absent ↦ rw (count-tally c ts t, absent) refl
  | inr tile ↦ ground (
    arith,
    count-tally c ts t,
    a.counts (c.type - 1) c.value (ground arith),
    tally-nil (c.type - 1) c.value,
    tally-nil (c.type - 1) (c.value - 1),
    tally-nil (c.type - 1) (c.value - 2),
  )
]

-- Each of the two tests of a result means what it says.
result_3n_plus_2 :
    (ts seqs twos threes left : List CardInformation) (n : ℕ)
    → Accounts ts (result seqs twos threes left)
    → (length left == 0) && (length seqs + length threes + 1 == n) && (length twos == 1) ≡ true
    → IsStandardWin ts
result_3n_plus_2 ts seqs [] threes left n a h = absurd (ground arith)
result_3n_plus_2 ts seqs (p ∷ q ∷ twos) threes left n a h = absurd (ground arith)
result_3n_plus_2 ts seqs (p ∷ []) threes (l ∷ left) n a h = absurd (ground arith)
result_3n_plus_2 ts seqs (p ∷ []) threes [] n a h = division_wins ts seqs threes p a

result_7_pairs :
    (ts seqs twos threes left : List CardInformation)
    → All IsTile ts
    → Accounts ts (result seqs twos threes left)
    → (length left == 0) && (length ts == 14 && length seqs == 0 && length twos == 7) ≡ true
    → IsSevenPairs ts
result_7_pairs ts (s ∷ seqs) twos threes left t a h = absurd (ground arith)
result_7_pairs ts [] twos threes (l ∷ left) t a h = absurd (ground arith)
result_7_pairs ts [] twos (x ∷ threes) [] t a h = absurd (let e = a.total in ground arith)
result_7_pairs ts [] twos [] [] t a h = (ground arith, division_pairs ts twos t a)

module _ (ct : CardTypes) (numbered : IsNumbered ct)
    (arrive : List ℕ → List (List AnalyzeResult) → List (List AnalyzeResult))
    (arrives : (path : List ℕ) (rss : List (List AnalyzeResult)) → Permᴰ (arrive path rss) rss)
    (ts : List CardInformation) (t : All IsTile ts) where
  accepted : AnalyzeResult → Bool
  accepted v = is_3n_plus_2 (length ts) v || is_7_pairs (length ts) v

  any_result-wins :
      (vs : List AnalyzeResult)
      → All (IsDivision ct numbered ts) vs
      → any_result accepted vs ≡ true
      → IsSevenPairs ts ⊎ IsStandardWin ts
  unfolding accepted
  any_result-wins [] h e = absurd (ground arith)
  any_result-wins (v ∷ vs) h e = elim (Bool-cases (is_3n_plus_2 (length ts) v)) [
    | inl std ↦ inr (result_3n_plus_2 ts v.seqs v.twos v.threes v.left _ h.0.0 std)
    | inr other ↦ elim (Bool-cases (is_7_pairs (length ts) v)) [
      | inl pairs ↦ inl (result_7_pairs ts v.seqs v.twos v.threes v.left t h.0.0 pairs)
      | inr neither ↦ any_result-wins vs h.1 (rw (other, neither) at e)
    ]
  ]

  -- AnalyzeNormalCards ends without a panic on tiles, in whatever order the goroutines' results
  -- arrive, and says yes only to seven pairs or a pair and triplets and runs.
  pub analyze_normal_cards-wins :
      (b : Bool) × (analyze_normal_cards ct arrive ts ≡ ok b)
      × (b ≡ true → IsSevenPairs ts ⊎ IsStandardWin ts)
  unfolding analyze_normal_cards accepted
  analyze_normal_cards-wins =
      let (rs, e, d) =
        split-Divides ct numbered arrive arrives (suc (length ts)) [] ts t (omega arith) in
      (any_result accepted rs, rw e refl, any_result-wins rs d)

  any_result-standard :
      (vs : List AnalyzeResult)
      → All (IsDivision ct numbered ts) vs
      → any_result (is_3n_plus_2 (length ts)) vs ≡ true
      → IsStandardWin ts
  any_result-standard [] h e = absurd (ground arith)
  any_result-standard (v ∷ vs) h e = elim (Bool-cases (is_3n_plus_2 (length ts) v)) [
    | inl std ↦ result_3n_plus_2 ts v.seqs v.twos v.threes v.left _ h.0.0 std
    | inr other ↦ any_result-standard vs h.1 (rw other at e)
  ]

  -- SplitOpt ends without a panic on tiles, in whatever order the goroutines' results arrive, and
  -- says yes only to a pair and triplets and runs.
  pub split_opt-wins : (b : Bool) × (split_opt ct arrive ts ≡ ok b) × (b ≡ true → IsStandardWin ts)
  unfolding split_opt
  split_opt-wins =
      let (seq, triple, pair, e0, e1, e2, d) =
        three_branches ct numbered arrive arrives (length ts) [] ts t (omega arith) in
      (
        any_result (is_3n_plus_2 (length ts)) (received_opt ct arrive (seq ++ triple ++ pair)),
        rw (e0, e1, e2) refl,
        any_result-standard _
            (received_opt-IsDivision ct numbered arrive arrives ts (seq ++ triple ++ pair) d),
      )
