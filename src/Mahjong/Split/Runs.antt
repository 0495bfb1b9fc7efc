-- ===== src/Mahjong/Split/Runs.antt =====
-- The run that findSeq finds, and what Split leaves without it.
use common_fw.Common.{
  ℕ, zero, suc, ◌+◌, ◌≤◌, ◌≡◌, ◌⊎◌, inl, inr, refl, ap, ◌==◌, Option, none, some, List, [], ◌∷◌,
  ◌++◌, length, take, drop, arith, All, Bool-cases, take-append,
}
use common_fw.Mahjong.Cards.{CardInformation}
use common_fw.Mahjong.Hand.Counting.{IsTile}
use common_fw.Mahjong.Split.{seq_loop, slice, without}

-- The last card of a run, found among `vs`.
pub record EndsRun (first : CardInformation) (vs : List CardInformation) (i last b : ℕ)
    : Type 0 where
  pub ys : List CardInformation
  pub zs : List CardInformation
  pub d : CardInformation
  pub splits : vs ≡ ys ++ (d ∷ zs)
  pub index : b ≡ i + 1 + length ys
  pub next : (d.type ≡ first.type) × (d.value ≡ last + 1)

-- A round of the loop that finds something takes a card or passes over an equal one.
abbrev Round :
    CardInformation → CardInformation → List CardInformation → ℕ → Option ℕ → ℕ → ℕ → ℕ → Type 0
Round first v vs i none last a b =
    (v.value ≡ last + 1) × (seq_loop first vs (i + 1) (some (i + 1)) v.value ≡ some (a, b))
Round first v vs i (some s) last a b = (v.value ≡ last + 1) × (a ≡ s) × (b ≡ i + 1)

seq_loop-Round :
    (first v : CardInformation) (vs : List CardInformation) (i : ℕ) (second : Option ℕ)
    (last a b : ℕ)
    → IsTile v
    → last ≤ 9
    → seq_loop first (v ∷ vs) i second last ≡ some (a, b)
    → (v.type ≡ first.type)
      × (Round first v vs i second last a b ⊎ (seq_loop first vs (i + 1) second last ≡ some (a, b)))
unfolding seq_loop
seq_loop-Round first v vs i none last a b t l e = ground arith
seq_loop-Round first v vs i (some s) last a b t l e = ground arith

seq_loop-end :
    (first : CardInformation) (vs : List CardInformation) (i s last a b : ℕ)
    → All IsTile vs
    → last ≤ 9
    → seq_loop first vs i (some s) last ≡ some (a, b)
    → (a ≡ s) × EndsRun first vs i last b
unfolding seq_loop
seq_loop-end first [] i s last a b t l e = absurd (ground arith)
seq_loop-end first (v ∷ vs) i s last a b t l e =
    let (type_eq, step) = seq_loop-Round first v vs i (some s) last a b t.0 l e in
    elim step [
      | inl (n, ea, eb) ↦ (
        ea,
        record { ys = []; zs = vs; d = v; splits = refl; index = omega arith; next = (type_eq, n) },
      )
      | inr rest ↦
          let (ea, r) = seq_loop-end first vs (i + 1) s last a b t.1 l rest in
          (
            ea,
            record {
              ys = v ∷ r.ys;
              zs = r.zs;
              d = r.d;
              splits = ap (λ x. v ∷ x) r.splits;
              index = omega (arith, r.index);
              next = r.next;
            },
          )
    ]

-- The second and the last card of a run, found among `vs`.
pub record FindsRun (first : CardInformation) (vs : List CardInformation) (i last a b : ℕ)
    : Type 0 where
  pub xs : List CardInformation
  pub more : List CardInformation
  pub c : CardInformation
  pub splits : vs ≡ xs ++ (c ∷ more)
  pub index : a ≡ i + 1 + length xs
  pub next : (c.type ≡ first.type) × (c.value ≡ last + 1)
  pub ends : EndsRun first more a (last + 1) b

pub seq_loop-finds :
    (first : CardInformation) (vs : List CardInformation) (i last a b : ℕ)
    → All IsTile vs
    → last ≤ 9
    → seq_loop first vs i none last ≡ some (a, b)
    → FindsRun first vs i last a b
unfolding seq_loop
seq_loop-finds first [] i last a b t l e = absurd (ground arith)
seq_loop-finds first (v ∷ vs) i last a b t l e =
    let (type_eq, step) = seq_loop-Round first v vs i none last a b t.0 l e in
    elim step [
      | inl (n, rest) ↦
          let (ea, r) =
            seq_loop-end first vs (i + 1) (i + 1) v.value a b t.1 (let h = t.0 in omega arith)
              rest in
          record {
            xs = [];
            more = vs;
            c = v;
            splits = refl;
            index = omega arith;
            next = (type_eq, n);
            ends = rw (ea, ← n) r;
          }
      | inr rest ↦
          let r = seq_loop-finds first vs (i + 1) last a b t.1 l rest in
          record {
            xs = v ∷ r.xs;
            more = r.more;
            c = r.c;
            splits = ap (λ x. v ∷ x) r.splits;
            index = omega (arith, r.index);
            next = r.next;
            ends = r.ends;
          }
    ]

-- What stands before, between and behind the cards of a run.
slice_before : (xs more : List CardInformation) (n : ℕ) → n ≡ length xs → take n (xs ++ more) ≡ xs
slice_before xs more n e = rw e (take-append xs more)

slice_between :
    (xs ys more : List CardInformation) (c : CardInformation) (n m : ℕ)
    → n ≡ length xs + 1
    → m ≡ length xs + 1 + length ys
    → slice n m (xs ++ (c ∷ (ys ++ more))) ≡ ys
slice_between xs ys more c zero m en em = absurd (omega arith)
slice_between xs ys more c (suc n) zero en em = absurd (omega arith)
slice_between [] ys more c (suc zero) (suc m) en em = slice_before ys more m (omega arith)
slice_between [] ys more c (suc (suc n)) (suc m) en em = absurd (omega arith)
slice_between (x ∷ xs) ys more c (suc n) (suc m) en em =
    slice_between xs ys more c n m (omega arith) (omega arith)

drop_behind :
    (ys zs : List CardInformation) (d : CardInformation) (n : ℕ)
    → n ≡ length ys + 1
    → drop n (ys ++ (d ∷ zs)) ≡ zs
drop_behind ys zs d zero e = absurd (omega arith)
drop_behind [] zs d (suc zero) e = refl
drop_behind [] zs d (suc (suc n)) e = absurd (omega arith)
drop_behind (y ∷ ys) zs d (suc n) e = drop_behind ys zs d n (omega arith)

drop_behind_two :
    (xs ys zs : List CardInformation) (c d : CardInformation) (n : ℕ)
    → n ≡ length xs + length ys + 2
    → drop n (xs ++ (c ∷ (ys ++ (d ∷ zs)))) ≡ zs
drop_behind_two xs ys zs c d zero e = absurd (omega arith)
drop_behind_two [] ys zs c d (suc n) e = drop_behind ys zs d n (omega arith)
drop_behind_two (x ∷ xs) ys zs c d (suc n) e = drop_behind_two xs ys zs c d n (omega arith)

pub without-run :
    (first c d : CardInformation) (xs ys zs : List CardInformation) (a b : ℕ)
    → a ≡ length xs + 1
    → b ≡ length xs + length ys + 2
    → without a b (first ∷ (xs ++ (c ∷ (ys ++ (d ∷ zs))))) ≡ xs ++ ys ++ zs
without-run first c d xs ys zs a b ea eb = elim (Bool-cases (b == 2)) [
  | inl two ↦ rw two (adjacent xs ys (ground arith))
  | inr more ↦ rw (more, before, between, behind) refl
]
  where
    hand : List CardInformation
    hand = first ∷ (xs ++ (c ∷ (ys ++ (d ∷ zs))))

    adjacent :
        (xs ys : List CardInformation)
        → length xs + length ys ≡ 0
        → drop 3 (first ∷ (xs ++ (c ∷ (ys ++ (d ∷ zs))))) ≡ xs ++ ys ++ zs
    adjacent [] [] e = refl
    adjacent [] (y ∷ ys) e = absurd (omega arith)
    adjacent (x ∷ xs) ys e = absurd (omega arith)

    before : slice 1 a hand ≡ xs
    before = ap (drop 1) (slice_before (first ∷ xs) (c ∷ (ys ++ (d ∷ zs))) a (omega arith))

    between : slice (a + 1) b hand ≡ ys
    between = slice_between (first ∷ xs) ys (d ∷ zs) c (a + 1) b (omega arith) (omega arith)

    behind : drop (b + 1) hand ≡ zs
    behind = drop_behind_two (first ∷ xs) ys zs c d (b + 1) (omega arith)
