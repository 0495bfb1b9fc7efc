-- ===== src/Mahjong/Parallel/Wins.antt =====
-- AnalyzeWildCards says yes only to wins.
use common_fw.Common.{
  ℕ, ◌+◌, ◌-◌, ◌%◌, ◌≤◌, ◌≡◌, refl, ◌∙◌, sym, subst, ◌⊎◌, inl, inr, true, false, some, List, [],
  ◌∷◌, ◌++◌, ◌==◌, length, ok, All, arith,
}
use mathlib.Core.List.{Permᴰ}
use common_fw.Mahjong.Cards.{CardInformation, CardTypes, IsNumbered, card}
use common_fw.Mahjong.Cards.SevenPairs.{IsSorted, is_7_dui_lem}
use common_fw.Mahjong.Hand.Counting.{IsTile}
use common_fw.Mahjong.Hand.Normal.{IsStandardWin, IsSevenPairs, analyze_normal_cards_opt_lem}
use common_fw.Mahjong.Wild.{
  Pattern, exclud_card, select, is_normal, is_all_zero, pre_ana_3np2_wild_cards,
  exhaustion_4_wild_3np2_cards_opt,
}
use common_fw.Mahjong.Wild.Search.{
  Tells, says, denies, Any, IsTilePattern, Follows, Follows-tiles, Choice, ana-Tells,
}
use common_fw.Mahjong.Wild.Sound.{CanWin}
use common_fw.Mahjong.Wild.Needs.{Grouped, men_group-Grouped}
use common_fw.Mahjong.Wild.Choices.{Chosen, Three, all_rows, found-CanWin}
use common_fw.Mahjong.Wild.Complete.{normal_rows-Tell}
use common_fw.Mahjong.Wild.Exclude.{exclud_card-Separates, exclud_card-All}
use common_fw.Mahjong.Parallel.Sound.{IsTrue}
use common_fw.Mahjong.Parallel.Answers.{
  Any-append, Any-map, Any-imp, Any-nested, Any-values, All-each, MayReturn-IsYes, Answers-IsYes,
  single-IsYes, IsYes,
}
use common_fw.Mahjong.Parallel.Search.{
  values, triples_of, all_zero_branches, ExhaustionAllZeroWild3Np2CardsOptParallel,
  Ana3Np2WildMenCardsOptParallel, Analyze3Np2WildCardsOpt, no_wild_card, by_rows, four_wild,
  none_wild, some_wild, AnalyzeWildCards,
}

module _ (ct : CardTypes) (numbered : IsNumbered ct)
    (sort : List CardInformation → List CardInformation)
    (sorts : (ts : List CardInformation) → Permᴰ (sort ts) ts) (nw : List CardInformation)
    (tiles : All IsTile nw) where
  -- A yes of a goroutine that tries triples of one suit is a winning choice.
  triples_of-Choice :
      (p : Pattern)
      → IsTilePattern p
      → Any IsYes (triples_of ct sort nw p)
      → Choice ct numbered sort sorts nw tiles (p ∷ p ∷ p ∷ [])
  triples_of-Choice (t, m) h a =
      let (x, xl, xh, b) = Any-values _ (m - 1) 1 (Any-nested IsYes _ (values (m - 1) 1) a) in
      let (y, yl, yh, c) = Any-values _ (m - 1) 1 (Any-nested IsYes _ (values (m - 1) 1) b) in
      let (z, zl, zh, e) = Any-values _ (m - 1) 1 (Any-map IsYes _ (values (m - 1) 1) c) in
      let ws = card t x ∷ card t y ∷ card t z ∷ [] in
      let follows : Follows ((t, m) ∷ (t, m) ∷ (t, m) ∷ []) ws =
        (refl, xl, omega arith, (refl, yl, omega arith, (refl, zl, omega arith, tt))) in
      (
        ws,
        follows,
        elim (ana-Tells ct numbered sort sorts nw tiles ws
            (Follows-tiles ((t, m) ∷ (t, m) ∷ (t, m) ∷ []) ws (h, (h, (h, tt))) follows)) [
              | says w f ↦ w
              | denies w f ↦ absurd (let g = sym e ∙ f in cc)
            ],
      )

  all_zero-Three :
      ExhaustionAllZeroWild3Np2CardsOptParallel ct sort nw true
      → Three ct numbered sort sorts nw tiles
  all_zero-Three r =
      Any-imp (λ p. Any IsYes (triples_of ct sort nw p))
        (λ p. Choice ct numbered sort sorts nw tiles (p ∷ p ∷ p ∷ []))
        ((ct.w, 10) ∷ (ct.t, 10) ∷ (ct.s, 10) ∷ (ct.z, 8) ∷ [])
        (
          at (ct.w, 10) (ground arith),
          (
            at (ct.t, 10) (ground arith),
            (at (ct.s, 10) (ground arith), (at (ct.z, 8) (ground arith), tt)),
          ),
        )
        (Any-map (Any IsYes) (triples_of ct sort nw)
          ((ct.w, 10) ∷ (ct.t, 10) ∷ (ct.s, 10) ∷ (ct.z, 8) ∷ [])
          (MayReturn-IsYes 100 (all_zero_branches ct sort nw) r))
    where
      at :
          (p : Pattern)
          → IsTilePattern p
          → Any IsYes (triples_of ct sort nw p)
          → Choice ct numbered sort sorts nw tiles (p ∷ p ∷ p ∷ [])
      at p h a = triples_of-Choice p h a

  module _ (n : ℕ) (low : 1 ≤ n) (high : n ≤ 3) (total : (length nw + n) % 3 ≡ 2) where
    rows-CanWin :
        (g : ℕ → List CardInformation) (grouped : Grouped nw g)
        → Ana3Np2WildMenCardsOptParallel ct sort nw n
            (all_rows ct numbered sort sorts nw tiles n low high total g grouped)
            true
        → CanWin nw n
    rows-CanWin g grouped (no_wild_card e f) = absurd (cc)
    rows-CanWin g grouped (by_rows normal zeros e a b c) =
        let rows = all_rows ct numbered sort sorts nw tiles n low high total g grouped in
        let yes = single-IsYes (normal ++ zeros) (MayReturn-IsYes 100 _ c) in
        found-CanWin ct numbered sort sorts nw tiles n low high total g grouped
          (elim (Any-append IsTrue normal zeros yes) [
            | inl h ↦ inl (
                Any-imp (λ row. exhaustion_4_wild_3np2_cards_opt ct sort nw row ≡ ok true)
                  (Chosen ct numbered sort sorts nw tiles) (select is_normal rows)
                  (All-chosen _
                    (normal_rows-Tell ct numbered sort sorts nw tiles n low high total g grouped))
                  (Answers-IsYes _ (select is_normal rows) normal a h))
            | inr h ↦ inr (
                Any-imp (λ row. ExhaustionAllZeroWild3Np2CardsOptParallel ct sort nw true)
                  (λ row. Three ct numbered sort sorts nw tiles) (select is_all_zero rows)
                  (All-each _ (select is_all_zero rows) (λ row. all_zero-Three))
                  (Answers-IsYes _ (select is_all_zero rows) zeros b h))
          ])
      where
        All-chosen :
            (rows : List (List ℕ))
            → All
                (λ row.
                  Tells
                    (Chosen ct numbered sort sorts nw tiles row)
                    (exhaustion_4_wild_3np2_cards_opt ct sort nw row))
                rows
            → All
                (λ row.
                  exhaustion_4_wild_3np2_cards_opt ct sort nw row ≡ ok true
                  → Chosen ct numbered sort sorts nw tiles row)
                rows
        All-chosen [] h = tt
        All-chosen (row ∷ rows) h = (
          (λ e. elim h.0 [ says w f ↦ w | denies w f ↦ absurd (let g = sym e ∙ f in cc) ]),
          All-chosen rows h.1,
        )

    -- On tiles, with one to three wild cards that make the hand one of 3n + 2 cards, whatever the
    -- order of the goroutines' steps, the search by goroutines says yes only if some tiles for the
    -- wild cards complete the hand to a pair, triplets and runs.
    pub Analyze3Np2WildCardsOpt-wins : Analyze3Np2WildCardsOpt ct sort nw n true → CanWin nw n
    unfolding pre_ana_3np2_wild_cards
    Analyze3Np2WildCardsOpt-wins (men_ana, e, r) =
        let (g, ge, grouped) = men_group-Grouped nw tiles in
        let nonzero : (n == 0) ≡ false = ground arith in
        let rows = all_rows ct numbered sort sorts nw tiles n low high total g grouped in
        let way : pre_ana_3np2_wild_cards nw n ≡ ok rows = rw (nonzero, ge) refl in
        let same : men_ana ≡ rows = cc in
        rows-CanWin g grouped
          (subst (λ m. Ana3Np2WildMenCardsOptParallel ct sort nw n m true) same r)

-- AnalyzeWildCards, whatever the order of the goroutines' steps, says yes to a sorted hand of 3n + 2
-- tiles only if it has four wild cards or is seven pairs, or is a pair and triplets and runs, or some
-- tiles for its one to three wild cards make it so. The hand has at most four wild cards.
pub AnalyzeWildCards-wins :
    (ct : CardTypes)
    → IsNumbered ct
    → (sort : List CardInformation → List CardInformation)
    → ((ts : List CardInformation) → Permᴰ (sort ts) ts)
    → (hand : List CardInformation) (wild : CardInformation) → All IsTile hand
    → IsSorted hand
    → length hand % 3 ≡ 2
    → (exclud_card hand (some wild)).1 ≤ 4
    → AnalyzeWildCards ct sort hand (some wild) true
    → ((exclud_card hand (some wild)).1 ≡ 4)
      ⊎ IsSevenPairs hand
      ⊎ IsStandardWin hand
      ⊎ CanWin (exclud_card hand (some wild)).0 (exclud_card hand (some wild)).1
AnalyzeWildCards-wins ct numbered sort sorts hand wild tiles sorted total high (four_wild e f) =
    inl e
AnalyzeWildCards-wins ct numbered sort sorts hand wild tiles sorted total high (none_wild e f) =
    elim (analyze_normal_cards_opt_lem ct numbered hand tiles sorted) [
      | inl (inl s, q) ↦ inr (inl s)
      | inl (inr w, q) ↦ inr (inr (inl w))
      | inr (n, q) ↦ absurd (let g = sym q ∙ f in cc)
    ]
AnalyzeWildCards-wins ct numbered sort sorts hand wild tiles sorted total high
      (some_wild true h7d e f a b c) =
    let apart = exclud_card-Separates hand wild in
    let complete = apart.complete in
    inr (
      inr (
        inr (
          Analyze3Np2WildCardsOpt-wins ct numbered sort sorts _
            (exclud_card-All IsTile hand wild tiles) _ (ground arith) (ground arith)
            (omega (arith, complete)) a)))
AnalyzeWildCards-wins ct numbered sort sorts hand wild tiles sorted total high
      (some_wild false true e f a b c) =
    elim (is_7_dui_lem hand sorted) [
      | inl (l, p, q) ↦ inr (inl (l, p))
      | inr (n, q) ↦ absurd (let g = sym q ∙ b in cc)
    ]
AnalyzeWildCards-wins ct numbered sort sorts hand wild tiles sorted total high
      (some_wild false false e f a b c) =
    absurd (cc)
