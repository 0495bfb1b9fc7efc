-- ===== src/Mahjong/Cards/SevenPairs.antt =====
-- What is7Dui decides on a sorted hand.
use common_fw.Common.{
  ℕ, zero, suc, ◌+◌, ◌*◌, ◌%◌, ◌≤◌, ◌≡◌, refl, ◌⊎◌, inl, inr, true, false, List, [], ◌∷◌, ◌==◌,
  if◌then◌else◌, length, ok, arith, Bool-cases, All,
}
use common_fw.Mahjong.Cards.{CardInformation, card_eq, less, same, dui_loop, is_7_dui}

-- How often a card is in a hand.
unfoldable pub count : CardInformation → List CardInformation → ℕ
count c [] = 0
count c (d ∷ ds) = (if same d c then 1 else 0) + count c ds

-- No later card is less than an earlier one.
abbrev pub IsSorted : List CardInformation → Type 0
IsSorted [] = Unit {0}
IsSorted (c ∷ cs) = All (λ d. less d c ≡ false) cs × IsSorted cs

abbrev pub IsPaired : List CardInformation → Type 0
IsPaired ts = (c : CardInformation) → count c ts % 2 ≡ 0

-- A card above which all others stand is counted at the front only.
count-above :
    (a b : CardInformation) (ts : List CardInformation)
    → less a b ≡ true
    → All (λ d. less d b ≡ false) ts
    → count a ts ≡ 0
unfolding count
count-above a b [] h k = refl
count-above a b (d ∷ ds) h k = ground (arith, count-above a b ds h k.1, k.0)

two-IsPaired :
    (a b : CardInformation) (rest : List CardInformation)
    → same a b ≡ true
    → IsPaired rest
    → IsPaired (a ∷ b ∷ rest)
unfolding count
two-IsPaired a b rest e p c = ground (arith, p c)

two-IsPaired_tail :
    (a b : CardInformation) (rest : List CardInformation)
    → same a b ≡ true
    → IsPaired (a ∷ b ∷ rest)
    → IsPaired rest
unfolding count
two-IsPaired_tail a b rest e p c = ground (arith, p c)

one-ne-IsPaired :
    (a b : CardInformation) (rest : List CardInformation)
    → same a b ≡ false
    → IsSorted (a ∷ b ∷ rest)
    → ¬ IsPaired (a ∷ b ∷ rest)
unfolding count
one-ne-IsPaired a b rest e s p = ground (arith, p a, count-above a b rest, s.0.0, s.1.0)

-- The loop passes over all cards exactly if they are paired.
dui_loop_lem :
    (n : ℕ) (ts : List CardInformation) (k : ℕ)
    → length ts ≡ 2 * n
    → IsSorted ts
    → (IsPaired ts × (dui_loop ts k ≡ ok (k + n)))
      ⊎ ((¬ IsPaired ts) × ((m : ℕ) × (dui_loop ts k ≡ ok m) × (suc m ≤ k + n)))
unfolding dui_loop card_eq count
dui_loop_lem n [] k h s = inl (λ c. refl, ground arith)
dui_loop_lem n (a ∷ []) k h s = absurd (omega arith)
dui_loop_lem zero (a ∷ b ∷ rest) k h s = absurd (omega arith)
dui_loop_lem (suc n) (a ∷ b ∷ rest) k h s = elim (Bool-cases (same a b)) [
  | inr e ↦ inr (one-ne-IsPaired a b rest e s, (k, ground arith, omega arith))
  | inl e ↦ elim (dui_loop_lem n rest (k + 1) (omega arith) s.1.1) [
    | inl (p, q) ↦ inl (two-IsPaired a b rest e p, ground arith)
    | inr (p, (m, q, r)) ↦
        inr (λ x. p (two-IsPaired_tail a b rest e x), (m, ground arith, omega arith))
  ]
]

-- On a sorted hand is7Dui ends without a panic, and says yes exactly if the hand has fourteen
-- cards and each card stands in it an even number of times.
pub is_7_dui_lem :
    (ts : List CardInformation)
    → IsSorted ts
    → ((length ts ≡ 14) × IsPaired ts × (is_7_dui ts ≡ ok true))
      ⊎ ((¬ ((length ts ≡ 14) × IsPaired ts)) × (is_7_dui ts ≡ ok false))
unfolding is_7_dui
is_7_dui_lem ts s = elim (Bool-cases (length ts == 14)) [
  | inr e ↦ inr (λ (a, b). ground arith, ground arith)
  | inl e ↦
      let l : length ts ≡ 14 = ground arith in
      elim (dui_loop_lem 7 ts 0 l s) [
        | inl (p, q) ↦ inl (l, p, ground arith)
        | inr (p, (m, q, r)) ↦ inr (λ (a, b). p b, ground arith)
      ]
]
