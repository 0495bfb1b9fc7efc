-- ===== src/Mahjong/Wild/Sound.antt =====
-- What the sequential search for wild cards finds are winning choices.
use common_fw.Common.{
  ℕ, ◌+◌, ◌%◌, ◌≤◌, ◌<◌, ◌≡◌, ◌∙◌, sym, inl, inr, true, List, [], ◌∷◌, ◌++◌, length, arith, All,
}
use mathlib.Core.List.{Permᴰ}
use common_fw.Mahjong.Cards.{CardInformation, CardTypes, IsNumbered}
use common_fw.Mahjong.Hand.Counting.{IsTile}
use common_fw.Mahjong.Hand.Normal.{IsStandardWin}
use common_fw.Mahjong.Wild.{
  Pattern, need_all_num, need, men_row, is_normal, is_all_zero, triple_loop, possible_cards,
  exhaustion_4_wild_3np2_cards_opt, exhaustion_all_zero_wild_3np2_cards_opt,
}
use common_fw.Mahjong.Wild.Search.{
  Tells, range_loop-Tells, Any, Follows-tiles, IsTilePattern, Choice, triple_loop-Tells,
  by_possible_cards-Tells,
}
use common_fw.Mahjong.Wild.Suits.{
  possible_cards-IsTilePattern, length-possible_cards, length-Follows, tally-total,
}
use common_fw.Mahjong.Wild.Needs.{Grouped, needs, men_row-normal, men_row-all_zero, need-total}

-- Some `n` tiles for the wild cards complete the hand.
abbrev pub CanWin : List CardInformation → ℕ → Type 0
CanWin no_wild n =
    (ws : List CardInformation) × (length ws ≡ n) × All IsTile ws × IsStandardWin (no_wild ++ ws)

module _ (ct : CardTypes) (numbered : IsNumbered ct)
    (sort : List CardInformation → List CardInformation)
    (sorts : (ts : List CardInformation) → Permᴰ (sort ts) ts) (nw : List CardInformation)
    (tiles : All IsTile nw) where
  abbrev pub RowChoice : List ℕ → Type 0
  RowChoice row = Choice ct numbered sort sorts nw tiles (possible_cards ct row 0)

  abbrev pub AllZeroChoice : Type 0
  AllZeroChoice =
      Any (λ p. Choice ct numbered sort sorts nw tiles (p ∷ p ∷ p ∷ []))
        ((ct.w, 10) ∷ (ct.t, 10) ∷ (ct.s, 10) ∷ (ct.z, 8) ∷ [])

  pub all_zero-Tells : Tells AllZeroChoice (exhaustion_all_zero_wild_3np2_cards_opt ct sort nw)
  unfolding exhaustion_all_zero_wild_3np2_cards_opt
  all_zero-Tells =
      range_loop-Tells (λ p. Choice ct numbered sort sorts nw tiles (p ∷ p ∷ p ∷ [])) _ _
        (
          at (ct.w, 10) (ground arith),
          (
            at (ct.t, 10) (ground arith),
            (at (ct.s, 10) (ground arith), (at (ct.z, 8) (ground arith), tt)),
          ),
        )
    where
      at :
          (p : Pattern)
          → IsTilePattern p
          → Tells
              (Choice ct numbered sort sorts nw tiles (p ∷ p ∷ p ∷ []))
              (triple_loop ct sort nw p p p)
      at p h = triple_loop-Tells ct numbered sort sorts nw tiles p h

  module _ (n : ℕ) (low : 1 ≤ n) (high : n ≤ 3) (total : (length nw + n) % 3 ≡ 2)
      (g : ℕ → List CardInformation) (grouped : Grouped nw g) where
    abbrev pub rows : List (List ℕ)
    rows = men_row g n 0 ∷ men_row g n 1 ∷ men_row g n 2 ∷ men_row g n 3 ∷ []

    grouped_total : (length (g 0) + length (g 1) + length (g 2) + length (g 3) + n) % 3 ≡ 2
    grouped_total =
        let sum = tally-total nw tiles in rw (grouped 0, grouped 1, grouped 2, grouped 3, sum) total

    pub normal-Tells :
        (i : ℕ)
        → is_normal (men_row g n i) ≡ true
        → Tells
            (RowChoice (men_row g n i))
            (exhaustion_4_wild_3np2_cards_opt ct sort nw (men_row g n i))
    unfolding exhaustion_4_wild_3np2_cards_opt
    normal-Tells i h =
        let (e, some_need, fits) = men_row-normal g n i h in
        let len =
          length-possible_cards ct numbered (need g i 0) (need g i 1) (need g i 2) (need g i 3) in
        rw e (
          by_possible_cards-Tells ct numbered sort sorts nw tiles (possible_cards ct (needs g i) 0)
            (possible_cards-IsTilePattern ct numbered (needs g i) 0 (omega arith))
            (omega (arith, len)) (omega (arith, len)))

    pub normal-CanWin :
        (i : ℕ) → i < 4 → is_normal (men_row g n i) ≡ true → RowChoice (men_row g n i) → CanWin nw n
    normal-CanWin i hi h c =
        let (e, some_need, fits) = men_row-normal g n i h in
        let len =
          length-possible_cards ct numbered (need g i 0) (need g i 1) (need g i 2) (need g i 3) in
        let exact : need_all_num g i ≡ n = elim (need-total g i n hi grouped_total low high fits) [
          | inl x ↦ x
          | inr (x, y) ↦ absurd (omega arith)
        ] in
        let (ws, f, w) = rw e at c in
        (
          ws,
          length-Follows _ ws f ∙ len ∙ exact,
          Follows-tiles _ ws (possible_cards-IsTilePattern ct numbered (needs g i) 0 (omega arith))
              f,
          w,
        )

    pub all_zero-CanWin :
        (i : ℕ) → i < 4 → is_all_zero (men_row g n i) ≡ true → AllZeroChoice → CanWin nw n
    all_zero-CanWin i hi h c = elim c [
      | inl q ↦ three (ct.w, 10) (ground arith) q
      | inr (inl q) ↦ three (ct.t, 10) (ground arith) q
      | inr (inr (inl q)) ↦ three (ct.s, 10) (ground arith) q
      | inr (inr (inr (inl q))) ↦ three (ct.z, 8) (ground arith) q
      | inr (inr (inr (inr q))) ↦ absurd q
    ]
      where
        none_wanted : need_all_num g i ≡ 0
        none_wanted = men_row-all_zero g n i h

        exact : n ≡ 3
        exact = elim (need-total g i n hi grouped_total low high (omega (arith, none_wanted))) [
          | inl x ↦ absurd (omega (arith, none_wanted))
          | inr (x, y) ↦ y
        ]

        three :
            (p : Pattern)
            → IsTilePattern p
            → Choice ct numbered sort sorts nw tiles (p ∷ p ∷ p ∷ [])
            → CanWin nw n
        three p t (ws, f, w) = (
          ws,
          length-Follows (p ∷ p ∷ p ∷ []) ws f ∙ sym exact,
          Follows-tiles (p ∷ p ∷ p ∷ []) ws (t, (t, (t, tt))) f,
          w,
        )
