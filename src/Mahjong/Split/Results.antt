-- ===== src/Mahjong/Split/Results.antt =====
-- Every result of Split uses each card of the hand once and leaves nothing that could be taken, in
-- whatever order the goroutines' results arrive.
use common_fw.Common.{
  ℕ, zero, suc, ◌≤◌, ◌<◌, ◌≡◌, ◌≢◌, refl, ap, ◌∙◌, ◌==◌, Option, none, some, inl, inr, List, [],
  ◌∷◌, ◌++◌, ltb, length, arith, All, Bool-cases, All-perm, All-append, Outcome, ok,
}
use mathlib.Core.List.{Permᴰ}
use common_fw.Mahjong.Cards.{CardInformation, CardTypes, IsNumbered}
use common_fw.Mahjong.Hand.Counting.{IsTile}
use common_fw.Mahjong.Split.{
  AnalyzeResult, result, without, find_seq, seq_branch, triple_branch, pair_branch, merge,
  sub_split, join, receive, received_opt, split,
}
use common_fw.Mahjong.Split.Runs.{FindsRun, seq_loop-finds, without-run}
use common_fw.Mahjong.Split.Conservation.{Accounts, Branches, merge_one-Accounts, run-Branches}
use common_fw.Mahjong.Split.Branching.{
  OnSome, leaf-Accounts, pair_branch-Branches, triple_branch-Branches,
}

module _ (ct : CardTypes) (numbered : IsNumbered ct) where
  find_seq-finds :
      (first : CardInformation) (vs : List CardInformation) (a b : ℕ)
      → All IsTile (first ∷ vs)
      → find_seq ct (first ∷ vs) ≡ some (a, b)
      → (first.type ≢ 4) × FindsRun first vs 0 first.value a b
  unfolding find_seq
  find_seq-finds first vs a b t e = elim (Bool-cases (ltb (length (first ∷ vs)) 3)) [
    | inl short ↦ absurd (ground arith)
    | inr long ↦ elim (Bool-cases (first.type == ct.z)) [
      | inl honour ↦ absurd (let e' = rw (long, honour) at e in ground arith)
      | inr suited ↦
          let z = numbered.z_four in
          (
            ground arith,
            seq_loop-finds first vs 0 first.value a b t.1 (let h = t.0 in omega arith)
                (rw (long, suited) at e),
          )
    ]
  ]

  run_found :
      (first : CardInformation) (vs : List CardInformation) (a b : ℕ)
      → All IsTile (first ∷ vs)
      → first.type ≢ 4
      → FindsRun first vs 0 first.value a b
      → Branches (first ∷ vs) (result (first ∷ []) [] [] (without a b (first ∷ vs)))
  run_found first vs a b t suited f =
      let end = f.ends in
      let hand : vs ≡ f.xs ++ (f.c ∷ (end.ys ++ (end.d ∷ end.zs))) =
        f.splits ∙ ap (λ x. f.xs ++ (f.c ∷ x)) end.splits in
      let same_rest =
        without-run first f.c end.d f.xs end.ys end.zs a b (omega (arith, f.index))
          (omega (arith, f.index, end.index)) in
      let taken =
        run-Branches first f.c end.d f.xs end.ys end.zs (rw hand at t) suited f.next
          (end.next.0, omega (arith, end.next)) in
      rw (hand, same_rest) taken

  seq_branch-Branches :
      (ts : List CardInformation) → All IsTile ts → OnSome (Branches ts) (seq_branch ct ts)
  unfolding seq_branch
  seq_branch-Branches [] t = unfold find_seq in tt
  seq_branch-Branches (first ∷ vs) t = from (find_seq ct (first ∷ vs)) refl
    where
      from :
          (o : Option (ℕ × ℕ))
          → find_seq ct (first ∷ vs) ≡ o
          → OnSome (Branches (first ∷ vs)) (elim o [
            | none ↦ none
            | some (a, b) ↦ some (result (first ∷ []) [] [] (without a b (first ∷ vs)))
          ])
      from none e = tt
      from (some (a, b)) e =
          let (suited, f) = find_seq-finds first vs a b t e in run_found first vs a b t suited f

  -- Nothing more can be taken from the front of what a result leaves.
  abbrev pub IsFinished : AnalyzeResult → Type 0
  IsFinished v =
      (seq_branch ct v.left ≡ none) × (triple_branch v.left ≡ none) × (pair_branch v.left ≡ none)

  abbrev pub IsDivision : List CardInformation → AnalyzeResult → Type 0
  IsDivision ts v = Accounts ts v × IsFinished v

  merge-IsDivision :
      (ts : List CardInformation) (x : AnalyzeResult) (vs : List AnalyzeResult)
      → Accounts ts x
      → All (IsDivision x.left) vs
      → All (IsDivision ts) (merge x vs)
  merge-IsDivision ts x [] a h = tt
  merge-IsDivision ts x (v ∷ vs) a h =
      ((merge_one-Accounts ts x v a h.0.0, h.0.1), merge-IsDivision ts x vs a h.1)

  join-IsDivision :
      (ts : List CardInformation) (rss : List (List AnalyzeResult))
      → All (All (IsDivision ts)) rss
      → All (IsDivision ts) (join rss)
  join-IsDivision ts [] h = tt
  join-IsDivision ts (rs ∷ rss) h =
      All-append (IsDivision ts) rs (join rss) h.0 (join-IsDivision ts rss h.1)

  -- What a call on a hand returns.
  abbrev Divides : List CardInformation → Outcome (List AnalyzeResult) → Type 0
  Divides ts out = (rs : List AnalyzeResult) × (out ≡ ok rs) × All (IsDivision ts) rs

  -- What a branch sends, if it is taken.
  abbrev Sends :
      List CardInformation → Option AnalyzeResult → Outcome (List (List AnalyzeResult)) → Type 0
  Sends ts o out =
      (rss : List (List AnalyzeResult)) × (out ≡ ok rss)
      × All (All (IsDivision ts)) rss
      × (rss ≡ [] → o ≡ none)

  sub_split-Sends :
      (ts : List CardInformation) (o : Option AnalyzeResult)
      (call : List CardInformation → Outcome (List AnalyzeResult))
      → OnSome (Branches ts) o
      → ((l : List CardInformation) → All IsTile l → length l < length ts → Divides l (call l))
      → Sends ts o (sub_split call o)
  sub_split-Sends ts none call b h = ([], refl, tt, λ e. refl)
  sub_split-Sends ts (some r) call b h =
      let (rs, e, d) = h r.left b.0.rest b.1 in
      (merge r rs ∷ [], rw e refl, (merge-IsDivision ts r rs b.0 d, tt), λ q. absurd (ground arith))

  module _ (arrive : List ℕ → List (List AnalyzeResult) → List (List AnalyzeResult))
      (arrives : (path : List ℕ) (rss : List (List AnalyzeResult))
        → Permᴰ (arrive path rss) rss) where
    received :
        (path : List ℕ) (ts : List CardInformation) (rs : List AnalyzeResult)
        (rss : List (List AnalyzeResult))
        → All (All (IsDivision ts)) (rs ∷ rss)
        → All (IsDivision ts) (receive ct arrive path ts (rs ∷ rss))
    received path ts rs rss h =
        join-IsDivision ts _ (All-perm (All (IsDivision ts)) (arrives path (rs ∷ rss)) h)

    receive-IsDivision :
        (path : List ℕ) (ts : List CardInformation) (seq triple pair : List (List AnalyzeResult))
        → All IsTile ts
        → All (All (IsDivision ts)) (seq ++ triple ++ pair)
        → (seq ≡ [] → seq_branch ct ts ≡ none)
        → (triple ≡ [] → triple_branch ts ≡ none)
        → (pair ≡ [] → pair_branch ts ≡ none)
        → All (IsDivision ts) (receive ct arrive path ts (seq ++ triple ++ pair))
    receive-IsDivision path ts [] [] [] t h a b c =
        ((leaf-Accounts ts t, (a refl, b refl, c refl)), tt)
    receive-IsDivision path ts [] [] (x ∷ xs) t h a b c = received path ts x xs h
    receive-IsDivision path ts [] (x ∷ xs) pair t h a b c = received path ts x (xs ++ pair) h
    receive-IsDivision path ts (x ∷ xs) triple pair t h a b c =
        received path ts x (xs ++ triple ++ pair) h

    pub received_opt-IsDivision :
        (ts : List CardInformation) (rss : List (List AnalyzeResult))
        → All (All (IsDivision ts)) rss
        → All (IsDivision ts) (received_opt ct arrive rss)
    received_opt-IsDivision ts [] h = tt
    received_opt-IsDivision ts (rs ∷ rss) h = received [] ts rs rss h

    pub split-Divides :
        (fuel : ℕ) (path : List ℕ) (ts : List CardInformation)
        → All IsTile ts
        → length ts < fuel
        → Divides ts (split ct arrive fuel path ts)
    unfolding split
    split-Divides zero path ts t h = absurd (omega arith)
    split-Divides (suc fuel) path ts t h =
        let call =
          λ (i : ℕ) (l : List CardInformation) (tl : All IsTile l) (hl : length l < length ts).
            split-Divides fuel (i ∷ path) l tl (omega arith) in
        let (seq, e0, d0, n0) =
          sub_split-Sends ts (seq_branch ct ts) (split ct arrive fuel (0 ∷ path))
            (seq_branch-Branches ts t) (call 0) in
        let (triple, e1, d1, n1) =
          sub_split-Sends ts (triple_branch ts) (split ct arrive fuel (1 ∷ path))
            (triple_branch-Branches ts t) (call 1) in
        let (pair, e2, d2, n2) =
          sub_split-Sends ts (pair_branch ts) (split ct arrive fuel (2 ∷ path))
            (pair_branch-Branches ts t) (call 2) in
        (
          receive ct arrive path ts (seq ++ triple ++ pair),
          rw (e0, e1, e2) refl,
          receive-IsDivision path ts seq triple pair t
              (All-append _ (seq ++ triple) pair (All-append _ seq triple d0 d1) d2) n0 n1 n2,
        )

    -- What the three branches of a hand send.
    pub three_branches :
        (fuel : ℕ) (path : List ℕ) (ts : List CardInformation)
        → All IsTile ts
        → length ts ≤ fuel
        → (seq : List (List AnalyzeResult)) × (triple : List (List AnalyzeResult)) × (pair : List
            (List AnalyzeResult))
          × (sub_split (split ct arrive fuel (0 ∷ path)) (seq_branch ct ts) ≡ ok seq)
          × (sub_split (split ct arrive fuel (1 ∷ path)) (triple_branch ts) ≡ ok triple)
          × (sub_split (split ct arrive fuel (2 ∷ path)) (pair_branch ts) ≡ ok pair)
          × All (All (IsDivision ts)) (seq ++ triple ++ pair)
    three_branches fuel path ts t h =
        let call =
          λ (i : ℕ) (l : List CardInformation) (tl : All IsTile l) (hl : length l < length ts).
            split-Divides fuel (i ∷ path) l tl (omega arith) in
        let (seq, e0, d0, n0) =
          sub_split-Sends ts (seq_branch ct ts) (split ct arrive fuel (0 ∷ path))
            (seq_branch-Branches ts t) (call 0) in
        let (triple, e1, d1, n1) =
          sub_split-Sends ts (triple_branch ts) (split ct arrive fuel (1 ∷ path))
            (triple_branch-Branches ts t) (call 1) in
        let (pair, e2, d2, n2) =
          sub_split-Sends ts (pair_branch ts) (split ct arrive fuel (2 ∷ path))
            (pair_branch-Branches ts t) (call 2) in
        (
          seq,
          triple,
          pair,
          e0,
          e1,
          e2,
          All-append _ (seq ++ triple) pair (All-append _ seq triple d0 d1) d2,
        )
