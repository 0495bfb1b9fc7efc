-- ===== src/Mahjong/Wild/Needs.antt =====
-- How many cards each suit wants.
use common_fw.Common.{
  ℕ, zero, suc, ◌+◌, ◌-◌, ◌%◌, ◌≤◌, ◌<◌, ◌≡◌, refl, ◌⊎◌, inl, inr, true, List, [], ◌∷◌, ◌++◌, leb,
  le→leb, ◌==◌, if◌then◌else◌, length, length-append, ok, arith, All, Bool-cases,
}
use common_fw.Mahjong.Cards.{CardInformation}
use common_fw.Mahjong.Hand.Counting.{IsTile, tally}
use common_fw.Mahjong.Wild.{
  men_group, need, need_all_num, men_row, num_to_be_3n, num_to_be_3n_plus_2, is_normal, is_all_zero,
}

module _ (ts : List CardInformation) where
  -- What `men_group` groups: as many cards in each suit as the hand has.
  abbrev pub Grouped : (ℕ → List CardInformation) → Type 0
  Grouped g = (j : ℕ) → length (g j) ≡ tally ts j 0

men_group-from :
    (vs : List CardInformation) (group : ℕ → List CardInformation)
    → All IsTile vs
    → (g : ℕ → List CardInformation) × (men_group vs group ≡ ok g)
      × ((j : ℕ) → length (g j) ≡ length (group j) + tally vs j 0)
unfolding men_group tally
men_group-from [] group t = (group, refl, λ j. omega arith)
men_group-from (v ∷ vs) group t =
    let k = v.type - 1 in
    let (g, e, l) = men_group-from vs (λ j. if j == k then group k ++ (v ∷ []) else group j) t.1 in
    (g, ground arith, λ j. ground (arith, l j, length-append (group k) (v ∷ [])))

pub men_group-Grouped :
    (ts : List CardInformation)
    → All IsTile ts
    → (g : ℕ → List CardInformation) × (men_group ts (λ j. []) ≡ ok g) × Grouped ts g
men_group-Grouped ts t =
    let (g, e, l) = men_group-from ts (λ j. []) t in (g, e, λ j. omega (arith, l j))

abbrev pub needs : (ℕ → List CardInformation) → ℕ → List ℕ
needs g i = need g i 0 ∷ need g i 1 ∷ need g i 2 ∷ need g i 3 ∷ []

pub men_row-normal :
    (g : ℕ → List CardInformation) (n i : ℕ)
    → is_normal (men_row g n i) ≡ true
    → (men_row g n i ≡ needs g i) × (1 ≤ need_all_num g i) × (need_all_num g i ≤ n)
men_row-normal g n i h = elim (Bool-cases (leb (need_all_num g i) n)) [
  | inl e ↦ ground arith
  | inr e ↦ ground arith
]

pub men_row-normal_self :
    (g : ℕ → List CardInformation) (n i : ℕ)
    → 1 ≤ need_all_num g i
    → need_all_num g i ≤ n
    → is_normal (men_row g n i) ≡ true
men_row-normal_self g n i h k = rw (le→leb _ _ k) (ground arith)

pub men_row-all_zero :
    (g : ℕ → List CardInformation) (n i : ℕ)
    → is_all_zero (men_row g n i) ≡ true
    → need_all_num g i ≡ 0
men_row-all_zero g n i h = elim (Bool-cases (leb (need_all_num g i) n)) [
  | inl e ↦ ground arith
  | inr e ↦ ground arith
]

pub men_row-all_zero_self :
    (g : ℕ → List CardInformation) (n i : ℕ)
    → need_all_num g i ≡ 0
    → is_all_zero (men_row g n i) ≡ true
men_row-all_zero_self g n i h = rw (le→leb (need_all_num g i) n (omega arith)) (ground arith)

suit_need :
    (g : ℕ → List CardInformation) (p k m : ℕ)
    → m ≤ 3
    → (length (g k) + m) % 3 ≡ (if p == k then 2 else 0)
    → (need g p k ≡ m) ⊎ ((need g p k ≡ 0) × (m ≡ 3))
suit_need g p k m hm e = elim (Bool-cases (p == k)) [
  | inl q ↦
      rw q (let e' = rw q at e in mod_cases (num_to_be_3n_plus_2 (length (g k))) m hm (omega arith))
  | inr q ↦ rw q (let e' = rw q at e in mod_cases (num_to_be_3n (length (g k))) m hm (omega arith))
]
  where
    mod_cases : (a x : ℕ) → x ≤ 3 → (a ≡ x) ⊎ (a + 3 ≡ x) → (a ≡ x) ⊎ ((a ≡ 0) × (x ≡ 3))
    mod_cases a x h (inl r) = inl r
    mod_cases a x h (inr r) = inr (omega arith, omega arith)

-- The numbers by suit of a winning choice are what the suits want, or the suits want nothing and
-- one suit takes all three wild cards.
pub choice_needs :
    (g : ℕ → List CardInformation) (p n : ℕ) (m : ℕ → ℕ)
    → 1 ≤ n
    → n ≤ 3
    → m 0 + m 1 + m 2 + m 3 ≡ n
    → ((k : ℕ) → k < 4 → (length (g k) + m k) % 3 ≡ (if p == k then 2 else 0))
    → ((need g p 0 ≡ m 0) × (need g p 1 ≡ m 1) × (need g p 2 ≡ m 2) × (need g p 3 ≡ m 3))
      ⊎ ((need_all_num g p ≡ 0) × (n ≡ 3) × ((m 0 ≡ 3) ⊎ (m 1 ≡ 3) ⊎ (m 2 ≡ 3) ⊎ (m 3 ≡ 3)))
choice_needs g p n m low high s h =
    combine (need g p 0) (need g p 1) (need g p 2) (need g p 3) (m 0) (m 1) (m 2) (m 3) n low high s
      (suit_need g p 0 (m 0) (omega arith) (h 0 (omega arith)))
      (suit_need g p 1 (m 1) (omega arith) (h 1 (omega arith)))
      (suit_need g p 2 (m 2) (omega arith) (h 2 (omega arith)))
      (suit_need g p 3 (m 3) (omega arith) (h 3 (omega arith)))
  where
    combine :
        (a b c d x y z w n : ℕ)
        → 1 ≤ n
        → n ≤ 3
        → x + y + z + w ≡ n
        → ((a ≡ x) ⊎ ((a ≡ 0) × (x ≡ 3)))
        → ((b ≡ y) ⊎ ((b ≡ 0) × (y ≡ 3)))
        → ((c ≡ z) ⊎ ((c ≡ 0) × (z ≡ 3)))
        → ((d ≡ w) ⊎ ((d ≡ 0) × (w ≡ 3)))
        → ((a ≡ x) × (b ≡ y) × (c ≡ z) × (d ≡ w))
          ⊎ ((a + b + c + d ≡ 0) × (n ≡ 3) × ((x ≡ 3) ⊎ (y ≡ 3) ⊎ (z ≡ 3) ⊎ (w ≡ 3)))
    combine a b c d x y z w n l h e (inr (p, q)) k2 k3 k4 = inr (omega arith, omega arith, inl q)
    combine a b c d x y z w n l h e k1 (inr (p, q)) k3 k4 =
        inr (omega arith, omega arith, inr (inl q))
    combine a b c d x y z w n l h e k1 k2 (inr (p, q)) k4 =
        inr (omega arith, omega arith, inr (inr (inl q)))
    combine a b c d x y z w n l h e k1 k2 k3 (inr (p, q)) =
        inr (omega arith, omega arith, inr (inr (inr q)))
    combine a b c d x y z w n l h e (inl p) (inl q) (inl r) (inl t) = inl (p, q, r, t)

-- What the suits want has the remainder that completes the hand to 3n + 2.
pub need-total :
    (g : ℕ → List CardInformation) (p n : ℕ)
    → p < 4
    → (length (g 0) + length (g 1) + length (g 2) + length (g 3) + n) % 3 ≡ 2
    → 1 ≤ n
    → n ≤ 3
    → need_all_num g p ≤ n
    → (need_all_num g p ≡ n) ⊎ ((need_all_num g p ≡ 0) × (n ≡ 3))
need-total g zero n hp e low high h = omega arith
need-total g (suc zero) n hp e low high h = omega arith
need-total g (suc (suc zero)) n hp e low high h = omega arith
need-total g (suc (suc (suc zero))) n hp e low high h = omega arith
need-total g (suc (suc (suc (suc p)))) n hp e low high h = absurd (omega arith)
