-- ===== src/Mahjong/Analyser/FirstLevel.antt =====
-- firstLevel decides whether the counted tiles are a pair and, for the rest, triplets and runs.
use common_fw.Common.{
  ℕ, ◌%◌, ◌≤◌, ◌<◌, ◌≡◌, ◌≢◌, inl, inr, arith, Bool, true, false, ◌∙◌, none, some, Option-cases,
  sym, subst,
}
use common_fw.Common.{ok}
use common_fw.Mahjong.Analyser.{
  Row, HuAnalyser001, take_pair, pair_suit_loop, others_loop, pair_loop, first_level,
}
use common_fw.Mahjong.Analyser.Decomposition.{IsConsistent, Decomposes, sum_to, le-sum_to}
use common_fw.Mahjong.Analyser.Loops.{
  IsCounted, Answers, holds, fails, OthersFrom, PairFrom, others_loop-Answers, pair_loop-Answers,
  take_pair-IsConsistent,
}

-- A winning hand, 3n + 2: a pair, and the rest of every suit in triplets and runs.
pub record Wins (ha : HuAnalyser001) : Type 0 where
  pub suit : ℕ
  pub value : ℕ
  pub suit_bound : suit < 4
  pub value_low : 1 ≤ value
  pub value_high : value ≤ 9
  pub pair : 2 ≤ ha.all_pai suit value
  pub rest : Decomposes suit (take_pair (ha.all_pai suit) value)
  pub others : (k : ℕ) → k < 4 → k ≢ suit → Decomposes k (ha.all_pai k)

Decomposes-total : (ctype : ℕ) (r : Row) → IsConsistent r → Decomposes ctype r → r 0 % 3 ≡ 0
unfolding sum_to
Decomposes-total ctype r c d = omega (
  arith,
  d.no_run_below,
  d.no_run_above 8 (omega arith),
  d.no_run_above 9 (omega arith),
  d.counts 1 (omega arith) (omega arith),
  d.counts 2 (omega arith) (omega arith),
  d.counts 3 (omega arith) (omega arith),
  d.counts 4 (omega arith) (omega arith),
  d.counts 5 (omega arith) (omega arith),
  d.counts 6 (omega arith) (omega arith),
  d.counts 7 (omega arith) (omega arith),
  d.counts 8 (omega arith) (omega arith),
  d.counts 9 (omega arith) (omega arith),
)

pair_suit_bound :
    (ha : HuAnalyser001) (pos : ℕ) (ex : Bool)
    → pair_suit_loop 4 0 0 false ha ≡ some (pos, ex)
    → pos < 4
unfolding pair_suit_loop
pair_suit_bound ha pos ex e = ground arith

module _ (ha : HuAnalyser001) (p : ℕ) (bound : p < 4) (two : ha.all_pai p 0 % 3 ≡ 2)
    (none_left : (k : ℕ) → k < 4 → k ≢ p → ha.all_pai k 0 % 3 ≡ 0) where
  pair_suit_found : (pos : ℕ) (ex : Bool) → pair_suit_loop 4 0 0 false ha ≡ some (pos, ex) → pos ≡ p
  unfolding pair_suit_loop
  pair_suit_found pos ex e = ground (arith, none_left 0, none_left 1, none_left 2, none_left 3)

  pair_suit_some : pair_suit_loop 4 0 0 false ha ≢ none
  unfolding pair_suit_loop
  pair_suit_some e = ground (arith, none_left 0, none_left 1, none_left 2, none_left 3)

module _ (ha : HuAnalyser001) (c : IsCounted ha) where
  pub Wins-two : (w : Wins ha) → ha.all_pai w.suit 0 % 3 ≡ 2
  Wins-two w =
      let even =
        take_pair-IsConsistent _ w.value w.value_low w.value_high w.pair (c w.suit w.suit_bound) in
      let most = le-sum_to 9 (ha.all_pai w.suit) w.value w.value_low w.value_high in
      ground (
        arith,
        Decomposes-total w.suit _ even w.rest,
        c w.suit w.suit_bound,
        most,
        w.pair,
        w.value_low,
      )

  pub Wins-others : (w : Wins ha) (k : ℕ) → k < 4 → k ≢ w.suit → ha.all_pai k 0 % 3 ≡ 0
  Wins-others w k h n = Decomposes-total k _ (c k h) (w.others k h n)

  first_level_none : pair_suit_loop 4 0 0 false ha ≡ none → first_level ha ≡ ok (false, ha)
  unfolding first_level
  first_level_none e = rw (e, first_level)

  module _ (pos : ℕ) (ex : Bool) (e : pair_suit_loop 4 0 0 false ha ≡ some (pos, ex)) where
    first_level_others : others_loop 4 0 pos ha ≡ ok (false, ha) → first_level ha ≡ ok (false, ha)
    unfolding first_level
    first_level_others q = rw (e, first_level) (rw q)

    first_level_pair :
        others_loop 4 0 pos ha ≡ ok (true, ha) → first_level ha ≡ pair_loop 9 1 pos ha
    unfolding first_level
    first_level_pair q = rw (e, first_level) (rw q)

    Wins-suit : (w : Wins ha) → w.suit ≡ pos
    Wins-suit w = sym (pair_suit_found ha w.suit w.suit_bound (Wins-two w) (Wins-others w) pos ex e)

    Wins-OthersFrom : Wins ha → OthersFrom pos ha 4 0
    Wins-OthersFrom w j a b n = w.others j (omega arith) (λ q. n (q ∙ Wins-suit w))

    Wins-PairFrom : Wins ha → PairFrom pos ha 9 1
    Wins-PairFrom w = (
      w.value,
      w.value_low,
      omega (arith, w.value_high),
      subst (λ p. 2 ≤ ha.all_pai p w.value) (Wins-suit w) w.pair,
      subst (λ p. Decomposes p (take_pair (ha.all_pai p) w.value)) (Wins-suit w) w.rest,
    )

    found-Answers : Answers (Wins ha) ha (first_level ha)
    found-Answers =
        let bound : pos < 4 = pair_suit_bound ha pos ex e in
        elim (others_loop-Answers pos ha c 4 0 (omega arith)) [
          | fails p q ↦ fails (λ w. p (Wins-OthersFrom w)) (first_level_others q)
          | holds p q ↦ elim (pair_loop-Answers pos ha bound c 9 1 (omega arith) (omega arith)) [
            | fails p' q' ↦ fails (λ w. p' (Wins-PairFrom w)) (first_level_pair q ∙ q')
            | holds (v, a, b, two, d) q' ↦
                holds
                  (record {
                    suit = pos;
                    value = v;
                    suit_bound = bound;
                    value_low = a;
                    value_high = omega arith;
                    pair = two;
                    rest = d;
                    others = λ k h n. p k (omega arith) (omega arith) n;
                  })
                  (first_level_pair q ∙ q')
          ]
        ]

  -- On counted tiles firstLevel ends without a panic, answers whether they are a pair and, for the
  -- rest, triplets and runs, and leaves the counters as they were.
  pub first_level-Answers : Answers (Wins ha) ha (first_level ha)
  first_level-Answers = elim (Option-cases (pair_suit_loop 4 0 0 false ha)) [
    | inl e ↦
        fails (λ w. pair_suit_some ha w.suit w.suit_bound (Wins-two w) (Wins-others w) e)
          (first_level_none e)
    | inr ((pos, ex), e) ↦ found-Answers pos ex e
  ]
