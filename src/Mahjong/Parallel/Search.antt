-- ===== src/Mahjong/Parallel/Search.antt =====
-- component/mjana/mjana.go: AnalyzeWildCards and the search by goroutines below it.
use common_fw.Common.{
  ℕ, zero, suc, ◌+◌, ◌-◌, ◌≡◌, Bool, true, false, ◌||◌, Option, List, [], ◌∷◌, ◌++◌, ◌==◌, map,
  Outcome, ok,
}
use common_fw.Mahjong.Cards.{CardInformation, CardTypes, card, is_7_dui}
use common_fw.Mahjong.Hand.{analyze_normal_cards_opt}
use common_fw.Mahjong.Wild.{
  Pattern, exclud_card, is_all_zero, is_normal, select, pre_ana_3np2_wild_cards, possible_cards,
  ana_wild_3np2_cards_opt2, exhaustion_4_wild_3np2_cards_opt,
}
use common_fw.Mahjong.Parallel.{Race, Steps, start, returned}

-- `for x := i; x < i + n; x++`
abbrev pub values : ℕ → ℕ → List ℕ
values zero i = []
values (suc n) i = i ∷ values n (i + 1)

-- The answers of nested loops, in order.
abbrev pub nested {ℓ} : {A : Type ℓ} → List ℕ → (ℕ → List A) → List A
nested [] f = []
nested (x ∷ xs) f = f x ++ nested xs f

-- The function may return `b`: its goroutines compute these answers, none of them panics, and some
-- order of their steps and the function's leads to `b`.
abbrev pub MayReturn : ℕ → List (List (Outcome Bool)) → Bool → Type 0
MayReturn capacity computed b =
    (branches : List (List Bool)) × (computed ≡ map (map ok) branches)
    × (s : Race) × Steps capacity (start branches) s
    × (s.caller ≡ returned b)

-- Each call returns its answer.
abbrev pub Answers : (List ℕ → Bool → Type 0) → List (List ℕ) → List Bool → Type 0
Answers R [] [] = Unit
Answers R [] (b ∷ bs) = ⊥
Answers R (row ∷ rows) [] = ⊥
Answers R (row ∷ rows) (b ∷ bs) = R row b × Answers R rows bs

module _ (ct : CardTypes) (sort : List CardInformation → List CardInformation)
    (no_wild_cards : List CardInformation) where
  abbrev ana : List CardInformation → Outcome Bool
  ana = ana_wild_3np2_cards_opt2 ct sort no_wild_cards

  -- A goroutine of ExhaustionAllZeroWild3Np2CardsOptParallel: three cards of one suit.
  abbrev pub triples_of : Pattern → List (Outcome Bool)
  triples_of (t, m) = nested (values (m - 1) 1) (λ x.
      nested (values (m - 1) 1)
        (λ y. map (λ z. ana (card t x ∷ card t y ∷ card t z ∷ [])) (values (m - 1) 1)))

  abbrev pub all_zero_branches : List (List (Outcome Bool))
  all_zero_branches = map triples_of ((ct.w, 10) ∷ (ct.t, 10) ∷ (ct.s, 10) ∷ (ct.z, 8) ∷ [])

  abbrev pub ExhaustionAllZeroWild3Np2CardsOptParallel : Bool → Type 0
  ExhaustionAllZeroWild3Np2CardsOptParallel b = MayReturn 100 all_zero_branches b

  -- The goroutines of Exhaustion4Wild3Np2CardsOptParallel, one for each value of the first card.
  abbrev pub possible_branches : List Pattern → List (List (Outcome Bool))
  possible_branches ((t0, m0) ∷ []) = map (λ x. ana (card t0 x ∷ []) ∷ []) (values (m0 - 1) 1)
  possible_branches ((t0, m0) ∷ (t1, m1) ∷ []) =
      map (λ x. map (λ y. ana (card t0 x ∷ card t1 y ∷ [])) (values (m1 - 1) 1)) (values (m0 - 1) 1)
  possible_branches ((t0, m0) ∷ (t1, m1) ∷ (t2, m2) ∷ []) =
      map
        (λ x.
          nested (values (m1 - 1) 1)
            (λ y. map (λ z. ana (card t0 x ∷ card t1 y ∷ card t2 z ∷ [])) (values (m2 - 1) 1)))
        (values (m0 - 1) 1)
  possible_branches _ = []

  abbrev pub Exhaustion4Wild3Np2CardsOptParallel : List ℕ → Bool → Type 0
  Exhaustion4Wild3Np2CardsOptParallel men_ana b =
      MayReturn 10 (possible_branches (possible_cards ct men_ana 0)) b

  -- One goroutine for each row: those with a suit that wants cards try the rows' cards by loops.
  pub data Ana3Np2WildMenCardsOptParallel (wild_num : ℕ) (men_ana : List (List ℕ)) (b : Bool)
      : Type 0 where
    no_wild_card : wild_num ≡ 0 → b ≡ false → Ana3Np2WildMenCardsOptParallel wild_num men_ana b
    by_rows :
        (normal zeros : List Bool)
        → (wild_num == 0) ≡ false
        → Answers
            (λ row h. exhaustion_4_wild_3np2_cards_opt ct sort no_wild_cards row ≡ ok h)
            (select is_normal men_ana)
            normal
        → Answers
            (λ row h. ExhaustionAllZeroWild3Np2CardsOptParallel h)
            (select is_all_zero men_ana)
            zeros
        → MayReturn 100 (map (λ h. ok h ∷ []) (normal ++ zeros)) b
        → Ana3Np2WildMenCardsOptParallel wild_num men_ana b

  abbrev pub Analyze3Np2WildCardsOpt : ℕ → Bool → Type 0
  Analyze3Np2WildCardsOpt wild_num b =
      (men_ana : List (List ℕ)) × (pre_ana_3np2_wild_cards no_wild_cards wild_num ≡ ok men_ana)
      × Ana3Np2WildMenCardsOptParallel wild_num men_ana b

module _ (ct : CardTypes) (sort : List CardInformation → List CardInformation) where
  -- What AnalyzeWildCards may return, given the cards that are not wild and how many are.
  pub data AnalyzeExcluded (hand_cards no_wild_cards : List CardInformation) (wild_num : ℕ)
      (b : Bool) : Type 0 where
    four_wild : wild_num ≡ 4 → b ≡ true → AnalyzeExcluded hand_cards no_wild_cards wild_num b
    none_wild :
        wild_num ≡ 0
        → analyze_normal_cards_opt ct hand_cards ≡ ok b
        → AnalyzeExcluded hand_cards no_wild_cards wild_num b
    some_wild :
        (h3np2 h7d : Bool)
        → (wild_num == 4) ≡ false
        → (wild_num == 0) ≡ false
        → Analyze3Np2WildCardsOpt ct sort no_wild_cards wild_num h3np2
        → is_7_dui hand_cards ≡ ok h7d
        → b ≡ (h3np2 || h7d)
        → AnalyzeExcluded hand_cards no_wild_cards wild_num b

  abbrev pub AnalyzeWildCards : List CardInformation → Option CardInformation → Bool → Type 0
  AnalyzeWildCards hand_cards wild_card b =
      AnalyzeExcluded hand_cards (exclud_card hand_cards wild_card).0
        (exclud_card hand_cards wild_card).1 b
