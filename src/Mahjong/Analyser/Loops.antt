-- ===== src/Mahjong/Analyser/Loops.antt =====
-- The second and the third loop of firstLevel.
use common_fw.Common.{
  ℕ, zero, suc, ◌+◌, ◌-◌, ◌≤◌, ◌<◌, ◌≡◌, refl, ◌≢◌, inl, inr, arith, ◌==◌, leb, Bool, true, false,
  Bool-cases, fun_ext, ap, ◌∙◌, sym, subst,
}
use common_fw.Common.{Outcome, ok}
use common_fw.Mahjong.Analyser.{
  Row, HuAnalyser001, update, set_row, take_pair, put_pair, others_loop, pair_loop, split_suit,
}
use common_fw.Mahjong.Analyser.Decomposition.{
  IsConsistent, Decomposes, le-sum_to, sum_to-update, sum_to-update_zero,
}
use common_fw.Mahjong.Analyser.SplitRow.{Decides, accepts, rejects, split3np2-Decides}

-- Each suit's total is right.
abbrev pub IsCounted : HuAnalyser001 → Type 0
IsCounted ha = (k : ℕ) → k < 4 → IsConsistent (ha.all_pai k)

pub take_pair-IsConsistent :
    (r : Row) (z : ℕ) → 1 ≤ z → z ≤ 9 → 2 ≤ r z → IsConsistent r → IsConsistent (take_pair r z)
take_pair-IsConsistent r z low high h c =
    let r1 = update r z (r z - 2) in
    let e = sum_to-update_zero 9 r1 (r1 0 - 2) in ground (arith, e, sum_to-update 9 r z (r z - 2))

set_row_self : (ha : HuAnalyser001) (k : ℕ) (row : Row) → row ≡ ha.all_pai k → set_row ha k row ≡ ha
set_row_self ha k row e = λ i. record {
  all_pai = fun_ext {f = (set_row ha k row).all_pai} {g = ha.all_pai} (λ j. ground arith) i;
}

-- The answer of split3np2 on a suit of a counted hand, with what is left of the caller's step.
suit_Decides : (ctype : ℕ) (r : Row) → IsConsistent r → Decides ctype r (split_suit ctype r)
suit_Decides ctype r c = split3np2-Decides (suc (r 0)) ctype r c (omega arith)

-- Some call that ends in `ok`, of a truth value for `P` and of a hand that has not changed.
pub data Answers {ℓ} (P : Type ℓ) (ha : HuAnalyser001) (res : Outcome (Bool × HuAnalyser001))
    : Type ℓ where
  holds : P → res ≡ ok (true, ha) → Answers P ha res
  fails : ¬ P → res ≡ ok (false, ha) → Answers P ha res

set_row_same : (ha : HuAnalyser001) (k : ℕ) → set_row ha k (ha.all_pai k) ≡ ha
set_row_same ha k = set_row_self ha k (ha.all_pai k) refl

module _ (pos : ℕ) (ha : HuAnalyser001) (n k : ℕ) where
  others_pair : k ≡ pos → others_loop (suc n) k pos ha ≡ others_loop n (k + 1) pos ha
  unfolding others_loop
  others_pair e = ground arith

  others_true :
      k ≢ pos
      → split_suit k (ha.all_pai k) ≡ ok (true, ha.all_pai k)
      → others_loop (suc n) k pos ha ≡ others_loop n (k + 1) pos ha
  unfolding others_loop
  others_true h e = ground (arith, ap (others_loop n (k + 1) pos) (set_row_same ha k))

  others_false :
      k ≢ pos
      → split_suit k (ha.all_pai k) ≡ ok (false, ha.all_pai k)
      → others_loop (suc n) k pos ha ≡ ok (false, ha)
  unfolding others_loop
  others_false h e = ground (arith, set_row_same ha k)

  pair_absent : ha.all_pai pos k < 2 → pair_loop (suc n) k pos ha ≡ pair_loop n (k + 1) pos ha
  unfolding pair_loop
  pair_absent h = ground arith

  module _ (low : 1 ≤ k) (two : 2 ≤ ha.all_pai pos k) (total : 2 ≤ ha.all_pai pos 0) where
    put-take_pair : put_pair (take_pair (ha.all_pai pos) k) k ≡ ha.all_pai pos
    put-take_pair = fun_ext (λ j. ground arith)

    set_row_pair : set_row ha pos (put_pair (take_pair (ha.all_pai pos) k) k) ≡ ha
    set_row_pair = set_row_self ha pos _ put-take_pair

    pair_true :
        split_suit pos (take_pair (ha.all_pai pos) k) ≡ ok (true, take_pair (ha.all_pai pos) k)
        → pair_loop (suc n) k pos ha ≡ ok (true, ha)
    unfolding pair_loop
    pair_true e = ground (arith, set_row_pair)

    pair_false :
        split_suit pos (take_pair (ha.all_pai pos) k) ≡ ok (false, take_pair (ha.all_pai pos) k)
        → pair_loop (suc n) k pos ha ≡ pair_loop n (k + 1) pos ha
    unfolding pair_loop
    pair_false e = ground (arith, ap (pair_loop n (k + 1) pos) set_row_pair)

abbrev pub OthersFrom : ℕ → HuAnalyser001 → ℕ → ℕ → Type 0
OthersFrom pos ha n k = (j : ℕ) → k ≤ j → j < k + n → j ≢ pos → Decomposes j (ha.all_pai j)

abbrev pub PairFrom : ℕ → HuAnalyser001 → ℕ → ℕ → Type 0
PairFrom pos ha n z =
    (v : ℕ) × (z ≤ v)
    × (v < z + n)
    × (2 ≤ ha.all_pai pos v)
    × Decomposes pos (take_pair (ha.all_pai pos) v)

others_step :
    (pos : ℕ) (ha : HuAnalyser001) (n k : ℕ)
    → (k ≢ pos → Decomposes k (ha.all_pai k))
    → OthersFrom pos ha n (k + 1)
    → OthersFrom pos ha (suc n) k
others_step pos ha n k d h j a b c = elim (Bool-cases (j == k)) [
  | inl e ↦
      let e' : k ≡ j = ground arith in
      subst (λ x. Decomposes x (ha.all_pai x)) e' (d (λ q. c (sym e' ∙ q)))
  | inr e ↦ h j (ground arith) (ground arith) c
]

pub others_loop-Answers :
    (pos : ℕ) (ha : HuAnalyser001)
    → IsCounted ha
    → (n k : ℕ) → k + n ≤ 4
    → Answers (OthersFrom pos ha n k) ha (others_loop n k pos ha)
others_loop-Answers pos ha c zero k h =
    holds (λ j a b. absurd (omega arith)) (unfold others_loop in refl)
others_loop-Answers pos ha c (suc n) k h = elim (Bool-cases (k == pos)) [
  | inl e ↦
      let e' : k ≡ pos = ground arith in
      elim (others_loop-Answers pos ha c n (k + 1) (omega arith)) [
        | holds p q ↦
            holds (others_step pos ha n k (λ x. absurd (x e')) p) (others_pair pos ha n k e' ∙ q)
        | fails p q ↦
            fails (λ x. p (λ j a b. x j (omega arith) (omega arith)))
              (others_pair pos ha n k e' ∙ q)
      ]
  | inr e ↦
      let e' : k ≢ pos = λ q. ground arith in
      elim (suit_Decides k (ha.all_pai k) (c k (omega arith))) [
        | rejects p q ↦
            fails (λ x. p (x k (omega arith) (omega arith) e')) (others_false pos ha n k e' q)
        | accepts p q ↦ elim (others_loop-Answers pos ha c n (k + 1) (omega arith)) [
          | holds p' q' ↦
              holds (others_step pos ha n k (λ x. p) p') (others_true pos ha n k e' q ∙ q')
          | fails p' q' ↦
              fails (λ x. p' (λ j a b. x j (omega arith) (omega arith)))
                (others_true pos ha n k e' q ∙ q')
        ]
      ]
]

pair_later :
    (pos : ℕ) (ha : HuAnalyser001) (n z : ℕ) → PairFrom pos ha n (z + 1) → PairFrom pos ha (suc n) z
pair_later pos ha n z (v, a, b, c, d) = (v, omega arith, omega arith, c, d)

pair_here_or_later :
    (pos : ℕ) (ha : HuAnalyser001) (n z : ℕ)
    → (2 ≤ ha.all_pai pos z → ¬ Decomposes pos (take_pair (ha.all_pai pos) z))
    → ¬ PairFrom pos ha n (z + 1)
    → ¬ PairFrom pos ha (suc n) z
pair_here_or_later pos ha n z here later (v, a, b, c, d) = elim (Bool-cases (v == z)) [
  | inl e ↦
      let e' : v ≡ z = ground arith in
      here (subst (λ x. 2 ≤ ha.all_pai pos x) e' c)
        (subst (λ x. Decomposes pos (take_pair (ha.all_pai pos) x)) e' d)
  | inr e ↦ later (v, ground arith, ground arith, c, d)
]

pub pair_loop-Answers :
    (pos : ℕ) (ha : HuAnalyser001)
    → pos < 4
    → IsCounted ha
    → (n z : ℕ) → 1 ≤ z
    → z + n ≤ 10
    → Answers (PairFrom pos ha n z) ha (pair_loop n z pos ha)
pair_loop-Answers pos ha bound c zero z low h =
    fails (λ (v, a, b, d, e). absurd (omega arith)) (unfold pair_loop in refl)
pair_loop-Answers pos ha bound c (suc n) z low h = elim (Bool-cases (leb 2 (ha.all_pai pos z))) [
  | inr e ↦
      let few : ha.all_pai pos z < 2 = ground arith in
      let skip = pair_absent pos ha n z few in
      elim (pair_loop-Answers pos ha bound c n (z + 1) (omega arith) (omega arith)) [
        | holds p q ↦ holds (pair_later pos ha n z p) (skip ∙ q)
        | fails p q ↦ fails (pair_here_or_later pos ha n z (λ a. absurd (omega arith)) p) (skip ∙ q)
      ]
  | inl e ↦
      let two : 2 ≤ ha.all_pai pos z = ground arith in
      let total : 2 ≤ ha.all_pai pos 0 =
        omega (arith, c pos bound, le-sum_to 9 (ha.all_pai pos) z low (omega arith)) in
      elim (suit_Decides pos _
        (take_pair-IsConsistent (ha.all_pai pos) z low (omega arith) two (c pos bound))) [
          | accepts p q ↦
              holds (z, omega arith, omega arith, two, p) (pair_true pos ha n z low two total q)
          | rejects p q ↦
              let skip = pair_false pos ha n z low two total q in
              elim (pair_loop-Answers pos ha bound c n (z + 1) (omega arith) (omega arith)) [
                | holds p' q' ↦ holds (pair_later pos ha n z p') (skip ∙ q')
                | fails p' q' ↦ fails (pair_here_or_later pos ha n z (λ a. p) p') (skip ∙ q')
              ]
        ]
]
