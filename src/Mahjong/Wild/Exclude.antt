-- ===== src/Mahjong/Wild/Exclude.antt =====
-- What excludCard separates.
use common_fw.Common.{
  ℕ, ◌+◌, ◌≡◌, true, false, some, List, [], ◌∷◌, ◌++◌, if◌then◌else◌, length, length-append, arith,
  Bool-cases, inl, inr, All, All-append,
}
use common_fw.Mahjong.Cards.{CardInformation, card_eq, same}
use common_fw.Mahjong.Cards.SevenPairs.{count}
use common_fw.Mahjong.Wild.{exclud_loop, exclud_card}

count-append :
    (c : CardInformation) (xs ys : List CardInformation)
    → count c (xs ++ ys) ≡ count c xs + count c ys
unfolding count
count-append c [] ys = omega arith
count-append c (x ∷ xs) ys = omega (arith, count-append c xs ys)

-- The parts of excludCard's result, for a hand and a symbol.
pub record Separates (cards : List CardInformation) (symbol : CardInformation)
    (out : List CardInformation) (num : ℕ) : Type 0 where
  pub counted : num ≡ count symbol cards
  pub removed : count symbol out ≡ 0
  pub kept : (c : CardInformation) → same c symbol ≡ false → count c out ≡ count c cards
  pub complete : length out + num ≡ length cards

module _ (w : CardInformation) where
  loop_hit :
      (v : CardInformation) (vs out : List CardInformation) (n : ℕ)
      → same v w ≡ true
      → exclud_loop (v ∷ vs) (some w) out n ≡ exclud_loop vs (some w) out (n + 1)
  unfolding exclud_loop card_eq
  loop_hit v vs out n e = rw (e, exclud_loop)

  loop_miss :
      (v : CardInformation) (vs out : List CardInformation) (n : ℕ)
      → same v w ≡ false
      → exclud_loop (v ∷ vs) (some w) out n ≡ exclud_loop vs (some w) (out ++ (v ∷ [])) n
  unfolding exclud_loop card_eq
  loop_miss v vs out n e = rw (e, exclud_loop)

  -- The loop's result, with what stands in the accumulators.
  record Loops (vs out : List CardInformation) (n : ℕ) (res : List CardInformation × ℕ)
      : Type 0 where
    num : res.1 ≡ n + count w vs
    lengths : length res.0 + res.1 ≡ length out + n + length vs
    counts :
        (c : CardInformation) → count c res.0 ≡ count c out + (if same c w then 0 else count c vs)

  loop-Loops :
      (vs out : List CardInformation) (n : ℕ) → Loops vs out n (exclud_loop vs (some w) out n)
  unfolding count
  loop-Loops [] out n =
      unfold exclud_loop in
      record { num = omega arith; lengths = omega arith; counts = λ c. ground arith }
  loop-Loops (v ∷ vs) out n = elim (Bool-cases (same v w)) [
    | inl e ↦
        let ih = loop-Loops vs out (n + 1) in
        rw (loop_hit v vs out n e) (record {
          num = ground (arith, ih.num, e);
          lengths = omega (arith, ih.lengths);
          counts = λ c. ground (arith, ih.counts c, e);
        })
    | inr e ↦
        let ih = loop-Loops vs (out ++ (v ∷ [])) n in
        rw (loop_miss v vs out n e) (record {
          num = ground (arith, ih.num, e);
          lengths = omega (arith, ih.lengths, length-append out (v ∷ []));
          counts = λ c. ground (arith, ih.counts c, e, count-append c out (v ∷ []));
        })
  ]

-- excludCard counts the cards that equal the symbol, and returns the others: none equal to the
-- symbol, every other card as often as before, and no card lost.
pub exclud_card-Separates :
    (cards : List CardInformation) (w : CardInformation)
    → Separates cards w (exclud_card cards (some w)).0 (exclud_card cards (some w)).1
unfolding exclud_card count
exclud_card-Separates cards w =
    let l = loop-Loops w cards [] 0 in
    record {
      counted = omega (arith, l.num);
      removed = ground (arith, l.counts w);
      kept = λ c h. ground (arith, l.counts c);
      complete = omega (arith, l.lengths);
    }

-- What holds of all cards holds of the cards that excludCard returns.
loop-All :
    (P : CardInformation → Type 0) (w : CardInformation) (cards out : List CardInformation) (n : ℕ)
    → All P cards
    → All P out
    → All P (exclud_loop cards (some w) out n).0
unfolding exclud_loop
loop-All P w [] out n h k = k
loop-All P w (v ∷ vs) out n h k = elim (Bool-cases (same v w)) [
  | inl e ↦ rw (loop_hit w v vs out n e) (loop-All P w vs out (n + 1) h.1 k)
  | inr e ↦
      rw (loop_miss w v vs out n e)
        (loop-All P w vs (out ++ (v ∷ [])) n h.1 (All-append P out (v ∷ []) k (h.0, tt)))
]

pub exclud_card-All :
    (P : CardInformation → Type 0) (cards : List CardInformation) (w : CardInformation)
    → All P cards
    → All P (exclud_card cards (some w)).0
unfolding exclud_card
exclud_card-All P cards w h = loop-All P w cards [] 0 h tt
