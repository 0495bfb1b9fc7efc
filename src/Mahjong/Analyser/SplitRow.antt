-- ===== src/Mahjong/Analyser/SplitRow.antt =====
-- split3np2 decides whether a row decomposes, and restores the row.
use common_fw.Common.{
  ℕ, zero, suc, ◌+◌, ◌≤◌, ◌<◌, ◌≡◌, refl, ◌≢◌, ◌⊎◌, inl, inr, arith, ◌==◌, ltb, leb, Bool, true,
  false, not, ◌&&◌, Bool-cases, fun_ext, ap, ◌∙◌,
}
use common_fw.Common.{Outcome, ok}
use common_fw.Mahjong.Analyser.{
  Row, take_triplet, put_triplet, take_run, put_run, first_nonzero, split3np2,
}
use common_fw.Mahjong.Analyser.Decomposition.{
  IsConsistent, Decomposes, sum_to_zero, first_nonzero-Stops, take_triplet-IsConsistent,
  take_run-IsConsistent, put_triplet-Decomposes, put_run-Decomposes, take_triplet-Decomposes,
  take_run-Decomposes, le-sum_to, run-le-total,
}

pub put-take_triplet :
    (r : Row) (i : ℕ) → 1 ≤ i → 3 ≤ r i → 3 ≤ r 0 → put_triplet (take_triplet r i) i ≡ r
put-take_triplet r i low h h0 = fun_ext (λ j. ground arith)

pub put-take_run :
    (r : Row) (i : ℕ)
    → 1 ≤ i
    → 1 ≤ r i
    → 1 ≤ r (i + 1)
    → 1 ≤ r (i + 2)
    → 3 ≤ r 0
    → put_run (take_run r i) i ≡ r
put-take_run r i low h1 h2 h3 h0 = fun_ext (λ j. ground arith)

-- The result of a decision on `r` that leaves `r` as it was.
pub data Decides (ctype : ℕ) (r : Row) (res : Outcome (Bool × Row)) : Type 0 where
  accepts : Decomposes ctype r → res ≡ ok (true, r) → Decides ctype r res
  rejects : ¬ Decomposes ctype r → res ≡ ok (false, r) → Decides ctype r res

empty-Decomposes : (ctype : ℕ) (r : Row) → IsConsistent r → r 0 ≡ 0 → Decomposes ctype r
empty-Decomposes ctype r c e = record {
  triplets = λ j. 0;
  runs = λ j. 0;
  no_run_below = refl;
  no_run_above = λ j h. refl;
  no_honour_run = λ h j. refl;
  counts = λ j a b. omega (arith, le-sum_to 9 r j a b);
}

abbrev lowest : Row → ℕ
lowest r = first_nonzero 9 1 r

-- The four ways through one call.
module _ (fuel ctype : ℕ) (r : Row) (nonempty : r 0 ≢ 0) (found : lowest r < 10) where
  split_triplet :
      3 ≤ r (lowest r)
      → {b : Bool} {r' : Row} → split3np2 fuel ctype (take_triplet r (lowest r)) ≡ ok (b, r')
      → split3np2 (suc fuel) ctype r ≡ ok (b, put_triplet r' (lowest r))
  unfolding split3np2
  split_triplet h q = ground arith

  split_run :
      r (lowest r) < 3
      → (ctype ≢ 3)
      → (lowest r < 8)
      → (0 < r (lowest r + 1))
      → (0 < r (lowest r + 2))
      → {b : Bool} {r' : Row} → split3np2 fuel ctype (take_run r (lowest r)) ≡ ok (b, r')
      → split3np2 (suc fuel) ctype r ≡ ok (b, put_run r' (lowest r))
  unfolding split3np2
  split_run h z low h1 h2 q = ground arith

  split_neither :
      r (lowest r) < 3
      → ((ctype ≢ 3) → (lowest r < 8) → (0 < r (lowest r + 1)) → (0 < r (lowest r + 2)) → ⊥)
      → split3np2 (suc fuel) ctype r ≡ ok (false, r)
  unfolding split3np2
  split_neither h no_run = ground arith

can_run : ℕ → Row → ℕ → Bool
can_run ctype r i = not (ctype == 3) && ltb i 8 && ltb 0 (r (i + 1)) && ltb 0 (r (i + 2))

can_run_cases :
    (ctype : ℕ) (r : Row) (i : ℕ)
    → ((ctype ≢ 3) × (i < 8) × (0 < r (i + 1)) × (0 < r (i + 2)))
      ⊎ ((ctype ≢ 3) → (i < 8) → (0 < r (i + 1)) → (0 < r (i + 2)) → ⊥)
can_run_cases ctype r i = elim (Bool-cases (can_run ctype r i)) [
  | inl e ↦ inl (unfold can_run in ground arith)
  | inr e ↦ inr (unfold can_run in λ a b c d. ground arith)
]

lowest_found :
    (r : Row) → IsConsistent r → r 0 ≢ 0 → (1 ≤ lowest r) × (lowest r < 10) × (r (lowest r) ≢ 0)
lowest_found r c h =
    let s = first_nonzero-Stops 9 1 r in
    let f : lowest r < 10 = elim (Bool-cases (ltb (lowest r) 10)) [
      | inl e ↦ ground arith
      | inr e ↦ absurd (h (c ∙ sum_to_zero 9 r (λ j a b. s.skipped j a (ground arith))))
    ] in
    (s.from, f, s.found f)

-- The answer about a row from the answer about the row without its lowest triplet or run.
module _ (fuel ctype : ℕ) (r : Row) (c : IsConsistent r) (nonempty : r 0 ≢ 0) where
  skipped_below : (j : ℕ) → 1 ≤ j → j < lowest r → r j ≡ 0
  skipped_below = (first_nonzero-Stops 9 1 r).skipped

  three_lowest : 3 ≤ r (lowest r) → 3 ≤ r 0
  three_lowest h =
      let (low, high, pos) = lowest_found r c nonempty in
      omega (arith, le-sum_to 9 r (lowest r) low (omega arith))

  triplet_Decides :
      3 ≤ r (lowest r)
      → Decides ctype (take_triplet r (lowest r)) (split3np2 fuel ctype (take_triplet r (lowest r)))
      → Decides ctype r (split3np2 (suc fuel) ctype r)
  triplet_Decides h (accepts d q) =
      let (low, high, pos) = lowest_found r c nonempty in
      accepts (put_triplet-Decomposes (lowest r) low h d) (
        split_triplet fuel ctype r nonempty high h q
        ∙ ap (λ x. ok (true, x)) (put-take_triplet r (lowest r) low h (three_lowest h)))
  triplet_Decides h (rejects d q) =
      let (low, high, pos) = lowest_found r c nonempty in
      rejects (λ e. d (take_triplet-Decomposes (lowest r) low (omega arith) skipped_below h e))
        (split_triplet fuel ctype r nonempty high h q
          ∙ ap (λ x. ok (false, x)) (put-take_triplet r (lowest r) low h (three_lowest h)))

  module _ (h : r (lowest r) < 3) (z : ctype ≢ 3) (below : lowest r < 8) (h1 : 0 < r (lowest r + 1))
      (h2 : 0 < r (lowest r + 2)) where
    restored : put_run (take_run r (lowest r)) (lowest r) ≡ r
    restored =
        let (low, high, pos) = lowest_found r c nonempty in
        put-take_run r (lowest r) low (omega arith) h1 h2
          (run-le-total r (lowest r) low below (omega arith) h1 h2 c)

    run_Decides :
        Decides ctype (take_run r (lowest r)) (split3np2 fuel ctype (take_run r (lowest r)))
        → Decides ctype r (split3np2 (suc fuel) ctype r)
    run_Decides (accepts d q) =
        let (low, high, pos) = lowest_found r c nonempty in
        accepts (put_run-Decomposes (lowest r) low (omega arith) h1 h2 below z d)
          (split_run fuel ctype r nonempty high h z below h1 h2 q ∙ ap (λ x. ok (true, x)) restored)
    run_Decides (rejects d q) =
        let (low, high, pos) = lowest_found r c nonempty in
        rejects (λ e. d (take_run-Decomposes (lowest r) low (omega arith) skipped_below pos h e).0)
          (split_run fuel ctype r nonempty high h z below h1 h2 q
            ∙ ap (λ x. ok (false, x)) restored)

  nonempty_Decides :
      ((r' : Row) → IsConsistent r' → r' 0 < r 0 → Decides ctype r' (split3np2 fuel ctype r'))
      → Decides ctype r (split3np2 (suc fuel) ctype r)
  nonempty_Decides recur =
      let (low, high, pos) = lowest_found r c nonempty in
      elim (Bool-cases (leb 3 (r (lowest r)))) [
        | inl e ↦
            let h : 3 ≤ r (lowest r) = ground arith in
            triplet_Decides h (
              recur _ (take_triplet-IsConsistent r (lowest r) low (omega arith) h c)
                (let h0 = three_lowest h in ground arith))
        | inr e ↦
            let h : r (lowest r) < 3 = ground arith in
            elim (can_run_cases ctype r (lowest r)) [
              | inl (z, below, h1, h2) ↦ run_Decides h z below h1 h2 (
                  recur _ (take_run-IsConsistent r (lowest r) low below (omega arith) h1 h2 c) (
                    let h0 = run-le-total r (lowest r) low below (omega arith) h1 h2 c in
                    ground arith))
              | inr no_run ↦
                  rejects
                    (λ d.
                      let p =
                        take_run-Decomposes (lowest r) low (omega arith) skipped_below pos h d in
                      no_run p.1 p.2 p.3 p.4)
                    (split_neither fuel ctype r nonempty high h no_run)
            ]
      ]

-- With more fuel than tiles the call ends without a panic, answers whether the row decomposes
-- into triplets and runs, and leaves the row as it found it.
pub split3np2-Decides :
    (fuel ctype : ℕ) (r : Row)
    → IsConsistent r
    → r 0 < fuel
    → Decides ctype r (split3np2 fuel ctype r)
split3np2-Decides zero ctype r c h = elim h [ ]
split3np2-Decides (suc fuel) ctype r c h = elim (Bool-cases (r 0 == 0)) [
  | inl e ↦
      let e' : r 0 ≡ 0 = ground arith in
      accepts (empty-Decomposes ctype r c e') (unfold split3np2 in ground arith)
  | inr e ↦
      nonempty_Decides fuel ctype r c (λ e'. ground arith)
        (λ r' c' less. split3np2-Decides fuel ctype r' c' (omega arith))
]
