-- ===== src/Mahjong/Split/Conservation.antt =====
-- Split uses every card of a hand once in each of its results, in whatever order the results of its
-- goroutines arrive.
use common_fw.Common.{
  All-front, All-back, ℕ, ◌+◌, ◌-◌, ◌*◌, ◌≤◌, ◌<◌, ◌≡◌, ◌≢◌, refl, ◌==◌, true, List, [], ◌∷◌, ◌++◌,
  if◌then◌else◌, length, arith, All, All-append, length-append,
}
use common_fw.Mahjong.Cards.{CardInformation, same}
use common_fw.Mahjong.Hand.Counting.{IsTile, tally, tally-append}
use common_fw.Mahjong.Split.{AnalyzeResult, result, merge_one}

-- The runs that begin with the card of suit index `k` and value `j`.
abbrev pub starts : List CardInformation → ℕ → ℕ → ℕ
starts cs k j = if j == 0 then 0 else tally cs k j

-- The first card of a run.
abbrev pub IsRunStart : CardInformation → Type 0
IsRunStart c = IsTile c × (c.type ≤ 3) × (c.value ≤ 7)

-- The triplets, pairs, runs and the rest of a result use each card of the hand once.
pub record Accounts (ts : List CardInformation) (v : AnalyzeResult) : Type 0 where
  pub counts :
      (k j : ℕ)
      → 1 ≤ j
      → tally ts k j
        ≡ 3 * tally v.threes k j
          + 2 * tally v.twos k j
          + starts v.seqs k j
          + starts v.seqs k (j - 1)
          + starts v.seqs k (j - 2)
          + tally v.left k j
  pub total :
      length ts ≡ 3 * length v.threes + 2 * length v.twos + 3 * length v.seqs + length v.left
  pub runs : All IsRunStart v.seqs
  pub pairs : All IsTile v.twos
  pub rest : All IsTile v.left

pub merge_one-Accounts :
    (ts : List CardInformation) (x v : AnalyzeResult)
    → Accounts ts x
    → Accounts x.left v
    → Accounts ts (merge_one x v)
merge_one-Accounts ts x v a b = record {
  counts = λ k j h. ground (
    arith,
    a.counts k j h,
    b.counts k j h,
    tally-append v.threes x.threes k j,
    tally-append v.twos x.twos k j,
    tally-append v.seqs x.seqs k j,
    tally-append v.seqs x.seqs k (j - 1),
    tally-append v.seqs x.seqs k (j - 2),
  );
  total = omega (
    arith,
    a.total,
    b.total,
    length-append v.threes x.threes,
    length-append v.twos x.twos,
    length-append v.seqs x.seqs,
  );
  runs = All-append IsRunStart v.seqs x.seqs b.runs a.runs;
  pairs = All-append IsTile v.twos x.twos b.pairs a.pairs;
  rest = b.rest;
}

-- A branch accounts for the hand, and leaves fewer cards.
abbrev pub Branches : List CardInformation → AnalyzeResult → Type 0
Branches ts r = Accounts ts r × (length r.left < length ts)

pub tally-nil : (k j : ℕ) → tally [] k j ≡ 0
unfolding tally
tally-nil k j = refl

tally-cons :
    (c : CardInformation) (cs : List CardInformation) (k j : ℕ)
    → tally (c ∷ cs) k j ≡ tally (c ∷ []) k j + tally cs k j
tally-cons c cs k j = tally-append (c ∷ []) cs k j

tally-same :
    (a b : CardInformation) (k j : ℕ) → same a b ≡ true → tally (b ∷ []) k j ≡ tally (a ∷ []) k j
unfolding tally
tally-same a b k j e = ground arith

-- The cards that follow the first card of a run.
tally-next :
    (a c : CardInformation) (n k j : ℕ)
    → 1 ≤ a.value
    → 1 ≤ j
    → (c.type ≡ a.type) × (c.value ≡ a.value + n)
    → tally (c ∷ []) k j ≡ starts (a ∷ []) k (j - n)
unfolding tally
tally-next a c n k j h l e = ground arith

pub triple-Branches :
    (a b c : CardInformation) (ts : List CardInformation)
    → All IsTile (a ∷ b ∷ c ∷ ts)
    → same a b ≡ true
    → same b c ≡ true
    → Branches (a ∷ b ∷ c ∷ ts) (result [] [] (a ∷ []) ts)
triple-Branches a b c ts t e f = (
  record {
    counts = λ k j h. ground (
      arith,
      tally-cons a (b ∷ c ∷ ts) k j,
      tally-cons b (c ∷ ts) k j,
      tally-cons c ts k j,
      tally-same a b k j e,
      tally-same b c k j f,
      tally-nil k j,
      tally-nil k (j - 1),
      tally-nil k (j - 2),
    );
    total = omega arith;
    runs = tt;
    pairs = tt;
    rest = t.1.1.1;
  },
  omega arith,
)

pub pair-Branches :
    (a b : CardInformation) (ts : List CardInformation)
    → All IsTile (a ∷ b ∷ ts)
    → same a b ≡ true
    → Branches (a ∷ b ∷ ts) (result [] (a ∷ []) [] ts)
pair-Branches a b ts t e = (
  record {
    counts = λ k j h. ground (
      arith,
      tally-cons a (b ∷ ts) k j,
      tally-cons b ts k j,
      tally-same a b k j e,
      tally-nil k j,
      tally-nil k (j - 1),
      tally-nil k (j - 2),
    );
    total = omega arith;
    runs = tt;
    pairs = (t.0, tt);
    rest = t.1.1;
  },
  omega arith,
)

pub run-Branches :
    (first c d : CardInformation) (xs ys zs : List CardInformation)
    → All IsTile (first ∷ (xs ++ (c ∷ (ys ++ (d ∷ zs)))))
    → first.type ≢ 4
    → (c.type ≡ first.type) × (c.value ≡ first.value + 1)
    → (d.type ≡ first.type) × (d.value ≡ first.value + 2)
    → Branches (first ∷ (xs ++ (c ∷ (ys ++ (d ∷ zs))))) (result (first ∷ []) [] [] (xs ++ ys ++ zs))
run-Branches first c d xs ys zs t suited ec ed = (
  record {
    counts = λ k j h.
        let one = t.0 in
        ground (
          arith,
          run_counts k j,
          tally-nil k j,
          tally-next first c 1 k j (omega arith) h ec,
          tally-next first d 2 k j (omega arith) h ed,
          zero_starts k j h,
        );
    total = omega (
      arith,
      length-append xs (c ∷ (ys ++ (d ∷ zs))),
      length-append ys (d ∷ zs),
      length-append (xs ++ ys) zs,
      length-append xs ys,
    );
    runs = (let a = t.0 in let z = from_d.0 in ground arith, tt);
    pairs = tt;
    rest = All-append IsTile (xs ++ ys) zs (All-append IsTile xs ys before between) behind;
  },
  omega (
    arith,
    length-append xs (c ∷ (ys ++ (d ∷ zs))),
    length-append ys (d ∷ zs),
    length-append (xs ++ ys) zs,
    length-append xs ys,
  ),
)
  where
    before : All IsTile xs
    before = All-front IsTile xs (c ∷ (ys ++ (d ∷ zs))) t.1

    from_c : All IsTile (c ∷ (ys ++ (d ∷ zs)))
    from_c = All-back IsTile xs (c ∷ (ys ++ (d ∷ zs))) t.1

    between : All IsTile ys
    between = All-front IsTile ys (d ∷ zs) from_c.1

    from_d : All IsTile (d ∷ zs)
    from_d = All-back IsTile ys (d ∷ zs) from_c.1

    behind : All IsTile zs
    behind = from_d.1

    -- A hand with a run is the run and what is left.
    run_counts :
        (k j : ℕ)
        → tally (first ∷ (xs ++ (c ∷ (ys ++ (d ∷ zs))))) k j
          ≡ tally (first ∷ []) k j
            + tally (c ∷ []) k j
            + tally (d ∷ []) k j
            + tally (xs ++ ys ++ zs) k j
    run_counts k j = omega (
      arith,
      tally-cons first (xs ++ (c ∷ (ys ++ (d ∷ zs)))) k j,
      tally-append xs (c ∷ (ys ++ (d ∷ zs))) k j,
      tally-cons c (ys ++ (d ∷ zs)) k j,
      tally-append ys (d ∷ zs) k j,
      tally-cons d zs k j,
      tally-append (xs ++ ys) zs k j,
      tally-append xs ys k j,
    )

    zero_starts : (k j : ℕ) → 1 ≤ j → starts (first ∷ []) k j ≡ tally (first ∷ []) k j
    zero_starts k j h = ground arith
