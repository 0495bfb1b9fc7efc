-- ===== src/Mahjong/Wild/Choices.antt =====
-- A choice of tiles for the wild cards wins exactly if a row of PreAna3NP2WildCards leads to one.
use common_fw.Common.{
  All-append, ℕ, zero, suc, ◌+◌, ◌%◌, ◌≤◌, ◌<◌, ◌≡◌, ◌∙◌, ap, sym, subst, ◌⊎◌, inl, inr, true, List,
  [], ◌∷◌, ◌++◌, ◌==◌, if◌then◌else◌, length, arith, All, Bool-cases,
}
use mathlib.Core.List.{Permᴰ}
use common_fw.Mahjong.Cards.{CardInformation, CardTypes, IsNumbered}
use common_fw.Mahjong.Analyser.Loops.{IsCounted}
use common_fw.Mahjong.Analyser.FirstLevel.{Wins, Wins-two, Wins-others}
use common_fw.Mahjong.Hand.Counting.{
  tally-append, IsTile, tally, counters, counters-IsCounted, analyser_ext,
}
use common_fw.Mahjong.Hand.Normal.{IsStandardWin}
use common_fw.Mahjong.Wild.{
  Pattern, need_all_num, need, men_row, is_normal, is_all_zero, select, possible_cards,
}
use common_fw.Mahjong.Wild.Search.{Any, Follows, Choice}
use common_fw.Mahjong.Wild.Suits.{by_suit, tally-by_suit, Follows-by_suit, tally-total}
use common_fw.Mahjong.Wild.Needs.{
  Grouped, men_row-normal, men_row-normal_self, men_row-all_zero_self, choice_needs,
}
use common_fw.Mahjong.Wild.Select.{Any-select_in, Any-select_out}
use common_fw.Mahjong.Wild.Sound.{
  CanWin, RowChoice, AllZeroChoice, rows, normal-CanWin, all_zero-CanWin,
}

module _ (ct : CardTypes) (numbered : IsNumbered ct)
    (sort : List CardInformation → List CardInformation)
    (sorts : (ts : List CardInformation) → Permᴰ (sort ts) ts) (nw : List CardInformation)
    (tiles : All IsTile nw) where
  abbrev pub Chosen : List ℕ → Type 0
  Chosen = RowChoice ct numbered sort sorts nw tiles

  abbrev pub Three : Type 0
  Three = AllZeroChoice ct numbered sort sorts nw tiles

  -- The patterns of three wild cards in one suit.
  three_patterns :
      (possible_cards ct (3 ∷ 0 ∷ 0 ∷ 0 ∷ []) 0 ≡ (ct.w, 10) ∷ (ct.w, 10) ∷ (ct.w, 10) ∷ [])
      × (possible_cards ct (0 ∷ 3 ∷ 0 ∷ 0 ∷ []) 0 ≡ (ct.t, 10) ∷ (ct.t, 10) ∷ (ct.t, 10) ∷ [])
      × (possible_cards ct (0 ∷ 0 ∷ 3 ∷ 0 ∷ []) 0 ≡ (ct.s, 10) ∷ (ct.s, 10) ∷ (ct.s, 10) ∷ [])
      × (possible_cards ct (0 ∷ 0 ∷ 0 ∷ 3 ∷ []) 0 ≡ (ct.z, 8) ∷ (ct.z, 8) ∷ (ct.z, 8) ∷ [])
  unfolding possible_cards
  three_patterns = (ground arith, ground arith, ground arith, ground arith)

  module _ (n : ℕ) (low : 1 ≤ n) (high : n ≤ 3) (total : (length nw + n) % 3 ≡ 2)
      (g : ℕ → List CardInformation) (grouped : Grouped nw g) where
    abbrev pub all_rows : List (List ℕ)
    all_rows = rows ct numbered sort sorts nw tiles n low high total g grouped

    -- The numbers by suit of a winning choice.
    winning_needs :
        (ws : List CardInformation)
        → length ws ≡ n
        → (t : All IsTile ws) → (w : IsStandardWin (nw ++ ws))
        → ((need g w.suit 0 ≡ tally ws 0 0)
            × (need g w.suit 1 ≡ tally ws 1 0)
            × (need g w.suit 2 ≡ tally ws 2 0)
            × (need g w.suit 3 ≡ tally ws 3 0))
          ⊎ ((need_all_num g w.suit ≡ 0)
              × (n ≡ 3)
              × ((tally ws 0 0 ≡ 3) ⊎ (tally ws 1 0 ≡ 3) ⊎ (tally ws 2 0 ≡ 3) ⊎ (tally ws 3 0 ≡ 3)))
    winning_needs ws l t w =
        choice_needs g w.suit n (λ k. tally ws k 0) low high (tally-total ws t ∙ l) remainder
      where
        counted : IsCounted (counters (nw ++ ws))
        counted = counters-IsCounted (nw ++ ws) (All-append IsTile nw ws tiles t)

        remainder :
            (k : ℕ) → k < 4 → (length (g k) + tally ws k 0) % 3 ≡ (if w.suit == k then 2 else 0)
        remainder k hk = elim (Bool-cases (w.suit == k)) [
          | inl e ↦
              let q : w.suit ≡ k = ground arith in
              rw (e, grouped k, ← tally-append nw ws k 0)
                (subst (λ j. tally (nw ++ ws) j 0 % 3 ≡ 2) q
                  (Wins-two (counters (nw ++ ws)) counted w))
          | inr e ↦
              rw (e, grouped k, ← tally-append nw ws k 0)
                (Wins-others (counters (nw ++ ws)) counted w k hk (λ q. ground arith))
        ]

    -- A choice wins in whatever order its cards stand.
    by_suit-wins :
        (ws : List CardInformation)
        → All IsTile ws
        → IsStandardWin (nw ++ ws)
        → IsStandardWin (nw ++ by_suit ws)
    by_suit-wins ws t w =
        subst Wins
          (analyser_ext (counters (nw ++ ws)) (counters (nw ++ by_suit ws)) (λ k v.
            tally-append nw ws k v
            ∙ ap (λ x. tally nw k v + x) (sym (tally-by_suit ws k v t))
            ∙ sym (tally-append nw (by_suit ws) k v)))
          w

    Any-row : (P : List ℕ → Type 0) (i : ℕ) → i < 4 → P (men_row g n i) → Any P all_rows
    Any-row P zero h p = inl p
    Any-row P (suc zero) h p = inr (inl p)
    Any-row P (suc (suc zero)) h p = inr (inr (inl p))
    Any-row P (suc (suc (suc zero))) h p = inr (inr (inr (inl p)))
    Any-row P (suc (suc (suc (suc i)))) h p = absurd (omega arith)

    all_zero-choice :
        (ws : List CardInformation)
        → length ws ≡ 3
        → All IsTile ws
        → IsStandardWin (nw ++ ws)
        → ((tally ws 0 0 ≡ 3) ⊎ (tally ws 1 0 ≡ 3) ⊎ (tally ws 2 0 ≡ 3) ⊎ (tally ws 3 0 ≡ 3))
        → Three
    all_zero-choice ws l t w k = elim k [
      | inl e ↦ inl (
          three (ct.w, 10)
            (rw three_patterns.0 at
              (follows 3 0 0 0 e (omega (arith, sum)) (omega (arith, sum)) (omega (arith, sum)))))
      | inr (inl e) ↦ inr (
          inl (
            three (ct.t, 10)
              (rw three_patterns.1 at (
                follows 0 3 0 0 (omega (arith, sum)) e (omega (arith, sum)) (omega (arith, sum))))))
      | inr (inr (inl e)) ↦ inr (
          inr (
            inl (
              three (ct.s, 10)
                (rw three_patterns.2 at (
                  follows 0 0 3 0 (omega (arith, sum)) (omega (arith, sum)) e
                    (omega (arith, sum)))))))
      | inr (inr (inr e)) ↦ inr (
          inr (
            inr (
              inl (
                three (ct.z, 8)
                  (rw three_patterns.3 at (
                    follows 0 0 0 3 (omega (arith, sum)) (omega (arith, sum)) (omega (arith, sum))
                      e))))))
    ]
      where
        sum : tally ws 0 0 + tally ws 1 0 + tally ws 2 0 + tally ws 3 0 ≡ 3
        sum = tally-total ws t ∙ l

        follows :
            (a b c d : ℕ)
            → tally ws 0 0 ≡ a
            → tally ws 1 0 ≡ b
            → tally ws 2 0 ≡ c
            → tally ws 3 0 ≡ d
            → Follows (possible_cards ct (a ∷ b ∷ c ∷ d ∷ []) 0) (by_suit ws)
        follows a b c d ea eb ec ed = rw (ea, eb, ec, ed) at (Follows-by_suit ct numbered ws t)

        three :
            (p : Pattern)
            → Follows (p ∷ p ∷ p ∷ []) (by_suit ws)
            → Choice ct numbered sort sorts nw tiles (p ∷ p ∷ p ∷ [])
        three p f = (by_suit ws, f, by_suit-wins ws t w)

    normal-choice :
        (i : ℕ) (ws : List CardInformation)
        → length ws ≡ n
        → All IsTile ws
        → IsStandardWin (nw ++ ws)
        → ((need g i 0 ≡ tally ws 0 0)
            × (need g i 1 ≡ tally ws 1 0)
            × (need g i 2 ≡ tally ws 2 0)
            × (need g i 3 ≡ tally ws 3 0))
        → (is_normal (men_row g n i) ≡ true) × Chosen (men_row g n i)
    normal-choice i ws l t w (a, b, c, d) =
        let sum = tally-total ws t ∙ l in
        let h = men_row-normal_self g n i (omega arith) (omega arith) in
        let e = (men_row-normal g n i h).0 in
        (h, rw (e, a, b, c, d) (by_suit ws, Follows-by_suit ct numbered ws t, by_suit-wins ws t w))

    pub CanWin-found :
        CanWin nw n
        → Any Chosen (select is_normal all_rows) ⊎ Any (λ row. Three) (select is_all_zero all_rows)
    CanWin-found (ws, l, t, w) = elim (winning_needs ws l t w) [
      | inl (a, b, c, d) ↦ inl (
          Any-select_in Chosen is_normal all_rows (
            Any-row (λ row. (is_normal row ≡ true) × Chosen row) w.suit w.suit_bound
              (normal-choice w.suit ws l t w (a, b, c, d))))
      | inr (z, three, k) ↦ inr (
          Any-select_in (λ row. Three) is_all_zero all_rows
            (Any-row (λ row. (is_all_zero row ≡ true) × Three) w.suit w.suit_bound
              (men_row-all_zero_self g n w.suit z, all_zero-choice ws (l ∙ three) t w k)))
    ]

    pub found-CanWin :
        Any Chosen (select is_normal all_rows) ⊎ Any (λ row. Three) (select is_all_zero all_rows)
        → CanWin nw n
    found-CanWin (inl h) = elim (Any-select_out Chosen is_normal all_rows h) [
      | inl (e, c) ↦
          normal-CanWin ct numbered sort sorts nw tiles n low high total g grouped 0 (omega arith) e
            c
      | inr (inl (e, c)) ↦
          normal-CanWin ct numbered sort sorts nw tiles n low high total g grouped 1 (omega arith) e
            c
      | inr (inr (inl (e, c))) ↦
          normal-CanWin ct numbered sort sorts nw tiles n low high total g grouped 2 (omega arith) e
            c
      | inr (inr (inr (inl (e, c)))) ↦
          normal-CanWin ct numbered sort sorts nw tiles n low high total g grouped 3 (omega arith) e
            c
      | inr (inr (inr (inr x))) ↦ absurd x
    ]
    found-CanWin (inr h) = elim (Any-select_out (λ row. Three) is_all_zero all_rows h) [
      | inl (e, c) ↦
          all_zero-CanWin ct numbered sort sorts nw tiles n low high total g grouped 0 (omega arith)
            e c
      | inr (inl (e, c)) ↦
          all_zero-CanWin ct numbered sort sorts nw tiles n low high total g grouped 1 (omega arith)
            e c
      | inr (inr (inl (e, c))) ↦
          all_zero-CanWin ct numbered sort sorts nw tiles n low high total g grouped 2 (omega arith)
            e c
      | inr (inr (inr (inl (e, c)))) ↦
          all_zero-CanWin ct numbered sort sorts nw tiles n low high total g grouped 3 (omega arith)
            e c
      | inr (inr (inr (inr x))) ↦ absurd x
    ]
