-- ===== src/Mahjong/Analyser/Decomposition.antt =====
-- What it means that the tiles of one suit are triplets and runs, independently of the algorithm,
-- and how a decomposition changes when a triplet or a run is taken from the row.
use common_fw.Common.{
  ℕ, zero, suc, ◌+◌, ◌-◌, ◌*◌, ◌≤◌, ◌<◌, ◌≡◌, refl, ◌≢◌, inl, inr, arith, ltb, Bool-cases,
}
use common_fw.Mahjong.Analyser.{Row, update, take_triplet, take_run, first_nonzero}

unfoldable pub sum_to : ℕ → Row → ℕ
sum_to zero r = 0
sum_to (suc n) r = sum_to n r + r (suc n)

-- Index 0 holds the sum of the others.
abbrev pub IsConsistent : Row → Type 0
IsConsistent r = r 0 ≡ sum_to 9 r

-- `triplets j` triplets of value `j` and `runs j` runs that begin at `j` use each tile once.
-- Honours (suit index 3) form no runs.
pub record Decomposes (ctype : ℕ) (r : Row) : Type 0 where
  pub triplets : ℕ → ℕ
  pub runs : ℕ → ℕ
  pub no_run_below : runs 0 ≡ 0
  pub no_run_above : (j : ℕ) → 8 ≤ j → runs j ≡ 0
  pub no_honour_run : ctype ≡ 3 → (j : ℕ) → runs j ≡ 0
  pub counts : (j : ℕ) → 1 ≤ j → j ≤ 9 → r j ≡ 3 * triplets j + runs j + runs (j - 1) + runs (j - 2)

pub sum_to-update_outside :
    (n : ℕ) (r : Row) (i v : ℕ) → n < i → sum_to n (update r i v) ≡ sum_to n r
unfolding sum_to
sum_to-update_outside zero r i v h = refl
sum_to-update_outside (suc n) r i v h = ground (arith, sum_to-update_outside n r i v)

pub sum_to-update_zero : (n : ℕ) (r : Row) (v : ℕ) → sum_to n (update r 0 v) ≡ sum_to n r
unfolding sum_to
sum_to-update_zero zero r v = refl
sum_to-update_zero (suc n) r v = ground (arith, sum_to-update_zero n r v)

pub sum_to-update :
    (n : ℕ) (r : Row) (i v : ℕ) → 1 ≤ i → i ≤ n → sum_to n (update r i v) + r i ≡ sum_to n r + v
unfolding sum_to
sum_to-update zero r i v h k = absurd (omega arith)
sum_to-update (suc n) r i v h k =
    ground (arith, sum_to-update n r i v, sum_to-update_outside n r i v)

pub le-sum_to : (n : ℕ) (r : Row) (i : ℕ) → 1 ≤ i → i ≤ n → r i ≤ sum_to n r
unfolding sum_to
le-sum_to zero r i h k = absurd (omega arith)
le-sum_to (suc n) r i h k = ground (arith, le-sum_to n r i)

pub sum_to_zero : (n : ℕ) (r : Row) → ((j : ℕ) → 1 ≤ j → j ≤ n → r j ≡ 0) → sum_to n r ≡ 0
unfolding sum_to
sum_to_zero zero r h = refl
sum_to_zero (suc n) r h =
    omega
      (arith, sum_to_zero n r (λ j a b. h j a (omega arith)), h (suc n) (omega arith) (omega arith))

-- Where `first_nonzero` stops.
pub record Stops (n i : ℕ) (r : Row) (k : ℕ) : Type 0 where
  pub from : i ≤ k
  pub upto : k ≤ i + n
  pub found : k < i + n → r k ≢ 0
  pub skipped : (j : ℕ) → i ≤ j → j < k → r j ≡ 0

pub first_nonzero-Stops : (n i : ℕ) (r : Row) → Stops n i r (first_nonzero n i r)
unfolding first_nonzero
first_nonzero-Stops zero i r = record {
  from = omega arith;
  upto = omega arith;
  found = λ h. absurd (omega arith);
  skipped = λ j a b. absurd (omega arith);
}
first_nonzero-Stops (suc n) i r =
    let ih = first_nonzero-Stops n (i + 1) r in
    record {
      from = ground (arith, ih.from);
      upto = ground (arith, ih.upto);
      found = λ h e. ground (arith, ih.found);
      skipped = λ j a b. ground (arith, ih.skipped j);
    }

pub take_triplet-IsConsistent :
    (r : Row) (i : ℕ) → 1 ≤ i → i ≤ 9 → 3 ≤ r i → IsConsistent r → IsConsistent (take_triplet r i)
take_triplet-IsConsistent r i low high h c =
    let r1 = update r i (r i - 3) in
    let e = sum_to-update_zero 9 r1 (r1 0 - 3) in ground (arith, e, sum_to-update 9 r i (r i - 3))

pub take_run-IsConsistent :
    (r : Row) (i : ℕ)
    → 1 ≤ i
    → i < 8
    → 1 ≤ r i
    → 1 ≤ r (i + 1)
    → 1 ≤ r (i + 2)
    → IsConsistent r
    → IsConsistent (take_run r i)
take_run-IsConsistent r i low high h1 h2 h3 c =
    let r1 = update r i (r i - 1) in
    let r2 = update r1 (i + 1) (r1 (i + 1) - 1) in
    let r3 = update r2 (i + 2) (r2 (i + 2) - 1) in
    let e = sum_to-update_zero 9 r3 (r3 0 - 3) in
    ground (
      arith,
      e,
      sum_to-update 9 r i (r i - 1),
      sum_to-update 9 r1 (i + 1) (r1 (i + 1) - 1),
      sum_to-update 9 r2 (i + 2) (r2 (i + 2) - 1),
    )

pub run-le-total :
    (r : Row) (i : ℕ)
    → 1 ≤ i
    → i < 8
    → 1 ≤ r i
    → 1 ≤ r (i + 1)
    → 1 ≤ r (i + 2)
    → IsConsistent r
    → 3 ≤ r 0
run-le-total r i low high h1 h2 h3 c =
    let r1 = update r i (r i - 1) in
    let r2 = update r1 (i + 1) (r1 (i + 1) - 1) in
    let r3 = update r2 (i + 2) (r2 (i + 2) - 1) in
    ground (
      arith,
      sum_to-update 9 r i (r i - 1),
      sum_to-update 9 r1 (i + 1) (r1 (i + 1) - 1),
      sum_to-update 9 r2 (i + 2) (r2 (i + 2) - 1),
    )

module _ {ctype : ℕ} {r : Row} (i : ℕ) (low : 1 ≤ i) where
  pub put_triplet-Decomposes : 3 ≤ r i → Decomposes ctype (take_triplet r i) → Decomposes ctype r
  put_triplet-Decomposes h d = record {
    triplets = update d.triplets i (d.triplets i + 1);
    runs = d.runs;
    no_run_below = d.no_run_below;
    no_run_above = d.no_run_above;
    no_honour_run = d.no_honour_run;
    counts = λ j a b. ground (arith, d.counts j a b);
  }

  pub put_run-Decomposes :
      1 ≤ r i
      → 1 ≤ r (i + 1)
      → 1 ≤ r (i + 2)
      → i < 8
      → ctype ≢ 3
      → Decomposes ctype (take_run r i)
      → Decomposes ctype r
  put_run-Decomposes h1 h2 h3 h z d = record {
    triplets = d.triplets;
    runs = update d.runs i (d.runs i + 1);
    no_run_below = ground (arith, d.no_run_below);
    no_run_above = λ j a. ground (arith, d.no_run_above j);
    no_honour_run = λ e. absurd (z e);
    counts = λ j a b. ground (arith, d.counts j a b);
  }

  -- The lowest tile of a row belongs to no run that begins below it.
  lowest_count :
      i ≤ 9
      → ((j : ℕ) → 1 ≤ j → j < i → r j ≡ 0)
      → (d : Decomposes ctype r) → r i ≡ 3 * d.triplets i + d.runs i
  lowest_count high skipped d = ground (
    arith,
    d.counts i low high,
    d.counts (i - 1),
    d.counts (i - 2),
    skipped (i - 1),
    skipped (i - 2),
    d.no_run_below,
  )

  -- A row whose lowest value stands there three times decomposes only if it does without these.
  pub take_triplet-Decomposes :
      i ≤ 9
      → ((j : ℕ) → 1 ≤ j → j < i → r j ≡ 0)
      → 3 ≤ r i
      → Decomposes ctype r
      → Decomposes ctype (take_triplet r i)
  take_triplet-Decomposes high skipped h d = elim (Bool-cases (ltb 0 (d.triplets i))) [
    | inl some_triplet ↦ record {
      triplets = update d.triplets i (d.triplets i - 1);
      runs = d.runs;
      no_run_below = d.no_run_below;
      no_run_above = d.no_run_above;
      no_honour_run = d.no_honour_run;
      counts = λ j a b. ground (arith, d.counts j a b);
    }
    | inr no_triplet ↦ record {
      triplets =
          update (update d.triplets (i + 1) (d.triplets (i + 1) + 1)) (i + 2)
            (d.triplets (i + 2) + 1);
      runs = update d.runs i (d.runs i - 3);
      no_run_below = ground (arith, d.no_run_below);
      no_run_above = λ j a. ground (arith, d.no_run_above j);
      no_honour_run = λ e j. ground (arith, d.no_honour_run e j);
      counts = λ j a b. ground (arith, d.counts j a b, lowest_count high skipped d);
    }
  ]

  -- If it stands there once or twice, a run begins with it.
  pub take_run-Decomposes :
      i ≤ 9
      → ((j : ℕ) → 1 ≤ j → j < i → r j ≡ 0)
      → r i ≢ 0
      → r i < 3
      → Decomposes ctype r
      → Decomposes ctype (take_run r i) × (ctype ≢ 3) × (i < 8) × (0 < r (i + 1)) × (0 < r (i + 2))
  take_run-Decomposes high skipped pos h d = (
    record {
      triplets = d.triplets;
      runs = update d.runs i (d.runs i - 1);
      no_run_below = ground (arith, d.no_run_below);
      no_run_above = λ j a. ground (arith, d.no_run_above j);
      no_honour_run = λ e j. ground (arith, d.no_honour_run e j);
      counts = λ j a b. ground (arith, d.counts j a b, lowest_count high skipped d);
    },
    λ e. ground (arith, lowest_count high skipped d, d.no_honour_run e i),
    ground (arith, lowest_count high skipped d, d.no_run_above i),
    ground (arith, lowest_count high skipped d, d.no_run_above i, d.counts (i + 1)),
    ground (arith, lowest_count high skipped d, d.no_run_above i, d.counts (i + 2)),
  )
