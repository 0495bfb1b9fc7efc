-- ===== src/Mahjong/Wild/Suits.antt =====
-- Wild cards by suit, and the patterns that they follow.
use common_fw.Common.{
  All-append, ℕ, zero, suc, ◌+◌, ◌≤◌, ◌≡◌, refl, ap, inl, inr, List, [], ◌∷◌, ◌++◌,
  length-replicate, ◌==◌, if◌then◌else◌, length, length-append, replicate, arith, All, Bool-cases,
}
use mathlib.Core.List.{append-nil}
use common_fw.Mahjong.Cards.{CardInformation, CardTypes, IsNumbered}
use common_fw.Mahjong.Hand.Counting.{tally-append, IsTile, tally}
use common_fw.Mahjong.Wild.{Pattern, possible_cards, max_value}
use common_fw.Mahjong.Wild.Search.{Follows, IsTilePattern}

-- A hand of tiles has its cards in the four suits.
pub tally-total :
    (ts : List CardInformation)
    → All IsTile ts
    → tally ts 0 0 + tally ts 1 0 + tally ts 2 0 + tally ts 3 0 ≡ length ts
unfolding tally
tally-total [] t = refl
tally-total (c ∷ cs) t = ground (arith, tally-total cs t.1)

tally_beyond : (ts : List CardInformation) (k v : ℕ) → All IsTile ts → 4 ≤ k → tally ts k v ≡ 0
unfolding tally
tally_beyond [] k v t h = refl
tally_beyond (c ∷ cs) k v t h = ground (arith, tally_beyond cs k v t.1 h)

-- The cards of one suit.
of_suit : ℕ → List CardInformation → List CardInformation
of_suit t [] = []
of_suit t (w ∷ ws) = if w.type == t then w ∷ of_suit t ws else of_suit t ws

tally-of_suit :
    (t : ℕ) (ws : List CardInformation) (k v : ℕ)
    → tally (of_suit t ws) k v ≡ (if t == k + 1 then tally ws k v else 0)
unfolding of_suit tally
tally-of_suit t [] k v = ground arith
tally-of_suit t (w ∷ ws) k v = ground (arith, tally-of_suit t ws k v)

length-of_suit : (k : ℕ) (ws : List CardInformation) → length (of_suit (k + 1) ws) ≡ tally ws k 0
unfolding of_suit tally
length-of_suit k [] = refl
length-of_suit k (w ∷ ws) = ground (arith, length-of_suit k ws)

-- The wild cards in the order of their suits.
pub by_suit : List CardInformation → List CardInformation
by_suit ws = of_suit 1 ws ++ (of_suit 2 ws ++ (of_suit 3 ws ++ of_suit 4 ws))

pub tally-by_suit :
    (ws : List CardInformation) (k v : ℕ) → All IsTile ws → tally (by_suit ws) k v ≡ tally ws k v
unfolding by_suit
tally-by_suit ws k v t =
    let a = tally-append (of_suit 1 ws) (of_suit 2 ws ++ (of_suit 3 ws ++ of_suit 4 ws)) k v in
    let b = tally-append (of_suit 2 ws) (of_suit 3 ws ++ of_suit 4 ws) k v in
    let c = tally-append (of_suit 3 ws) (of_suit 4 ws) k v in
    ground (
      arith,
      a,
      b,
      c,
      tally-of_suit 1 ws k v,
      tally-of_suit 2 ws k v,
      tally-of_suit 3 ws k v,
      tally-of_suit 4 ws k v,
      tally_beyond ws k v t,
    )

Follows-append :
    (ps qs : List Pattern) (ws vs : List CardInformation)
    → Follows ps ws
    → Follows qs vs
    → Follows (ps ++ qs) (ws ++ vs)
Follows-append [] qs [] vs f h = h
Follows-append [] qs (w ∷ ws) vs f h = absurd f
Follows-append (p ∷ ps) qs [] vs f h = absurd f
Follows-append (p ∷ ps) qs (w ∷ ws) vs f h = (f.0, f.1, f.2, Follows-append ps qs ws vs f.3 h)

module _ (ct : CardTypes) (numbered : IsNumbered ct) where
  Follows-of_suit :
      (t : ℕ) (ws : List CardInformation)
      → All IsTile ws
      → Follows (replicate (length (of_suit t ws)) (t, max_value ct t)) (of_suit t ws)
  unfolding of_suit
  Follows-of_suit t [] tiles = tt
  Follows-of_suit t (w ∷ ws) tiles = elim (Bool-cases (w.type == t)) [
    | inl h ↦
        let tile = tiles.0 in
        let z = numbered.z_four in
        rw h (ground arith, ground arith, ground arith, Follows-of_suit t ws tiles.1)
    | inr h ↦ rw h (Follows-of_suit t ws tiles.1)
  ]

  -- Wild cards in the order of their suits follow the patterns of their numbers by suit.
  pub Follows-by_suit :
      (ws : List CardInformation)
      → All IsTile ws
      → Follows
          (possible_cards ct (tally ws 0 0 ∷ tally ws 1 0 ∷ tally ws 2 0 ∷ tally ws 3 0 ∷ []) 0)
          (by_suit ws)
  unfolding by_suit possible_cards
  Follows-by_suit ws t =
      simp (← length-of_suit, append-nil)
        (Follows-append _ _ _ _ (Follows-of_suit 1 ws t) (
          Follows-append _ _ _ _ (Follows-of_suit 2 ws t)
            (Follows-append _ _ _ _ (Follows-of_suit 3 ws t) (Follows-of_suit 4 ws t))))

  replicate-IsTilePattern :
      (m t : ℕ) → 1 ≤ t → t ≤ 4 → All IsTilePattern (replicate m (t, max_value ct t))
  replicate-IsTilePattern zero t a b = tt
  replicate-IsTilePattern (suc m) t a b =
      ((let z = numbered.z_four in ground arith), replicate-IsTilePattern m t a b)

  pub possible_cards-IsTilePattern :
      (ms : List ℕ) (i : ℕ) → i + length ms ≤ 4 → All IsTilePattern (possible_cards ct ms i)
  unfolding possible_cards
  possible_cards-IsTilePattern [] i h = tt
  possible_cards-IsTilePattern (m ∷ ms) i h =
      All-append IsTilePattern (replicate m (i + 1, max_value ct (i + 1))) _
        (replicate-IsTilePattern m (i + 1) (omega arith) (omega arith))
        (possible_cards-IsTilePattern ms (i + 1) (omega arith))

  pub length-possible_cards :
      (a b c d : ℕ) → length (possible_cards ct (a ∷ b ∷ c ∷ d ∷ []) 0) ≡ a + b + c + d
  unfolding possible_cards
  length-possible_cards a b c d = simp (length-append, length-replicate) (omega arith)

pub length-Follows :
    (ps : List Pattern) (ws : List CardInformation) → Follows ps ws → length ws ≡ length ps
length-Follows [] [] f = refl
length-Follows [] (w ∷ ws) f = absurd f
length-Follows (p ∷ ps) [] f = absurd f
length-Follows (p ∷ ps) (w ∷ ws) f = ap suc (length-Follows ps ws f.3)
