-- ===== src/Mahjong/Wild/Search.antt =====
-- The loops over candidate cards find a winning choice exactly if there is one.
use common_fw.Common.{
  All-append, All-perm, ℕ, zero, suc, ◌+◌, ◌-◌, ◌≤◌, ◌<◌, ◌≡◌, refl, ◌∙◌, sym, subst, ◌⊎◌, inl, inr,
  Bool, true, false, List, [], ◌∷◌, ◌++◌, ◌==◌, if◌then◌else◌, length, Outcome, ok, arith, All,
  Bool-cases, ◌>>=◌,
}
use mathlib.Core.List.{Permᴰ}
use common_fw.Mahjong.Cards.{CardInformation, CardTypes, IsNumbered, card}
use common_fw.Mahjong.Analyser.Loops.{holds, fails}
use common_fw.Mahjong.Analyser.FirstLevel.{Wins}
use common_fw.Mahjong.Hand.Counting.{IsTile, tally, counters, analyser_ext}
use common_fw.Mahjong.Hand.Normal.{IsStandardWin, split002-Answers}
use common_fw.Mahjong.Wild.{
  Pattern, value_loop, range_loop, single_loop, double_loop, triple_loop, by_possible_cards,
  ana_wild_3np2_cards_opt2,
}

-- A run that ends in a truth value for `P`.
pub data Tells {ℓ} (P : Type ℓ) (res : Outcome Bool) : Type ℓ where
  says : P → res ≡ ok true → Tells P res
  denies : ¬ P → res ≡ ok false → Tells P res

pub Tells-iff {ℓ κ} :
    {P : Type ℓ} {Q : Type κ} {res : Outcome Bool} → (P → Q) → (Q → P) → Tells P res → Tells Q res
Tells-iff f g (says p e) = says (f p) e
Tells-iff f g (denies p e) = denies (λ q. p (g q)) e

pub either-Tells {ℓ κ} :
    {P : Type ℓ} {Q : Type κ} (a b : Outcome Bool)
    → Tells P a
    → Tells Q b
    → Tells (P ⊎ Q) (a >>= λ is_hu. if is_hu then ok true else b)
either-Tells a b (says p e) q = says (inl p) (rw e refl)
either-Tells a b (denies p e) (says q f) = says (inr q) (rw e f)
either-Tells a b (denies p e) (denies q f) = denies (elim [ inl x ↦ p x | inr x ↦ q x ]) (rw e f)

pub value_loop-Tells :
    (P : ℕ → Type 0) (body : ℕ → Outcome Bool)
    → (n x : ℕ) → ((y : ℕ) → x ≤ y → y < x + n → Tells (P y) (body y))
    → Tells ((y : ℕ) × (x ≤ y) × (y < x + n) × P y) (value_loop n x body)
unfolding value_loop
value_loop-Tells P body zero x h = denies (λ (y, a, b, c). absurd (omega arith)) refl
value_loop-Tells P body (suc n) x h =
    Tells-iff
      (elim [
        | inl p ↦ (x, omega arith, omega arith, p)
        | inr (y, a, b, p) ↦ (y, omega arith, omega arith, p)
      ])
      (λ (y, a, b, p). elim (Bool-cases (y == x)) [
        | inl e ↦ inl (subst P (ground arith) p)
        | inr e ↦ inr (y, ground arith, ground arith, p)
      ])
      (either-Tells (body x) (value_loop n (x + 1) body) (h x (omega arith) (omega arith))
        (value_loop-Tells P body n (x + 1) (λ y a b. h y (omega arith) (omega arith))))

-- Some element of a list has the property.
abbrev pub Any {ℓ} : {A : Type ℓ} → (A → Type 0) → List A → Type 0
Any P [] = ⊥
Any P (x ∷ xs) = P x ⊎ Any P xs

pub range_loop-Tells {ℓ} :
    {A : Type ℓ} (P : A → Type 0) (body : A → Outcome Bool) (vs : List A)
    → All (λ v. Tells (P v) (body v)) vs
    → Tells (Any P vs) (range_loop body vs)
unfolding range_loop
range_loop-Tells P body [] h = denies (λ x. x) refl
range_loop-Tells P body (v ∷ vs) h =
    either-Tells (body v) (range_loop body vs) h.0 (range_loop-Tells P body vs h.1)

-- The wild cards of a choice follow the patterns: each has the suit, and a value below the bound.
abbrev pub Follows : List Pattern → List CardInformation → Type 0
Follows [] [] = Unit {0}
Follows [] (w ∷ ws) = ⊥
Follows (p ∷ ps) [] = ⊥
Follows (p ∷ ps) (w ∷ ws) = (w.type ≡ p.0) × (1 ≤ w.value) × (w.value < p.1) × Follows ps ws

-- Suits with a bound that admits tiles only.
abbrev pub IsTilePattern : Pattern → Type 0
IsTilePattern p = (1 ≤ p.0) × (p.0 ≤ 4) × (1 ≤ p.1) × (p.1 ≤ 10) × (p.0 ≡ 4 → p.1 ≤ 8)

tally-perm : (k v : ℕ) {xs ys : List CardInformation} → Permᴰ xs ys → tally xs k v ≡ tally ys k v
unfolding tally
tally-perm k v Permᴰ.nil = refl
tally-perm k v (Permᴰ.cons e p) = ground (arith, tally-perm k v p, e)
tally-perm k v (Permᴰ.swap e f) = ground (arith, e, f)
tally-perm k v (Permᴰ.trans p q) = tally-perm k v p ∙ tally-perm k v q

pub Follows-tiles :
    (ps : List Pattern) (ws : List CardInformation)
    → All IsTilePattern ps
    → Follows ps ws
    → All IsTile ws
Follows-tiles [] [] t f = tt
Follows-tiles [] (w ∷ ws) t f = absurd f
Follows-tiles (p ∷ ps) [] t f = absurd f
Follows-tiles (p ∷ ps) (w ∷ ws) t f = (ground arith, Follows-tiles ps ws t.1 f.3)

-- The nest of loops along any list of patterns; the code's three nests are instances.
nest : List Pattern → (List CardInformation → Outcome Bool) → Outcome Bool
nest [] body = body []
nest ((t, m) ∷ ps) body = value_loop (m - 1) 1 (λ x. nest ps (λ ws. body (card t x ∷ ws)))

nest-Tells :
    (ps : List Pattern) (Q : List CardInformation → Type 0)
    (body : List CardInformation → Outcome Bool)
    → All IsTilePattern ps
    → ((ws : List CardInformation) → Follows ps ws → Tells (Q ws) (body ws))
    → Tells ((ws : List CardInformation) × Follows ps ws × Q ws) (nest ps body)
unfolding nest
nest-Tells [] Q body t h = Tells-iff (λ q. ([], tt, q)) from (h [] tt)
  where
    from : (ws : List CardInformation) × Follows [] ws × Q ws → Q []
    from ([], f, q) = q
    from (w ∷ ws, f, q) = absurd f
nest-Tells ((t, m) ∷ ps) Q body h k = Tells-iff into from (
    value_loop-Tells (λ x. (ws : List CardInformation) × Follows ps ws × Q (card t x ∷ ws)) _
      (m - 1) 1
      (λ x a b.
        nest-Tells ps (λ ws. Q (card t x ∷ ws)) (λ ws. body (card t x ∷ ws)) h.1
          (λ ws f. k (card t x ∷ ws) (refl, a, (let pos = h.0.2 in omega arith), f))))
  where
    into :
        (x : ℕ) × (1 ≤ x)
          × (x < 1 + (m - 1))
          × ((ws : List CardInformation) × Follows ps ws × Q (card t x ∷ ws))
        → (ws : List CardInformation) × Follows ((t, m) ∷ ps) ws × Q ws
    into (x, a, b, (ws, f, q)) = (card t x ∷ ws, (refl, a, (let pos = h.0.2 in omega arith), f), q)

    from :
        (ws : List CardInformation) × Follows ((t, m) ∷ ps) ws × Q ws
        → (x : ℕ) × (1 ≤ x)
          × (x < 1 + (m - 1))
          × ((ws : List CardInformation) × Follows ps ws × Q (card t x ∷ ws))
    from ([], f, q) = absurd f
    from (w ∷ ws, f, q) = (
      w.value,
      f.1,
      (let lt = f.2 in omega arith),
      (ws, f.3, subst Q (λ i. record { type = f.0 i; value = w.value } ∷ ws) q),
    )

module _ (ct : CardTypes) (numbered : IsNumbered ct)
    (sort : List CardInformation → List CardInformation)
    (sorts : (ts : List CardInformation) → Permᴰ (sort ts) ts) (no_wild : List CardInformation)
    (tiles : All IsTile no_wild) where
  -- The search's innermost call: does this choice of wild cards win?
  pub ana-Tells :
      (ws : List CardInformation)
      → All IsTile ws
      → Tells (IsStandardWin (no_wild ++ ws)) (ana_wild_3np2_cards_opt2 ct sort no_wild ws)
  unfolding ana_wild_3np2_cards_opt2
  ana-Tells ws t =
      let full = no_wild ++ ws in
      let same : counters (sort full) ≡ counters full =
        analyser_ext _ _ (λ k v. tally-perm k v (sorts full)) in
      elim (split002-Answers ct numbered (sort full)
        (All-perm IsTile (sorts full) (All-append IsTile no_wild ws tiles t))) [
          | holds w e ↦ says (subst Wins same w) (rw e refl)
          | fails w e ↦ denies (λ x. w (subst Wins (sym same) x)) (rw e refl)
        ]

  -- A winning choice along the patterns.
  abbrev pub Choice : List Pattern → Type 0
  Choice ps = (ws : List CardInformation) × Follows ps ws × IsStandardWin (no_wild ++ ws)

  nest_ana-Tells :
      (ps : List Pattern)
      → All IsTilePattern ps
      → Tells (Choice ps) (nest ps (ana_wild_3np2_cards_opt2 ct sort no_wild))
  nest_ana-Tells ps h = nest-Tells ps _ _ h (λ ws f. ana-Tells ws (Follows-tiles ps ws h f))

  pub triple_loop-Tells :
      (p : Pattern)
      → IsTilePattern p
      → Tells (Choice (p ∷ p ∷ p ∷ [])) (triple_loop ct sort no_wild p p p)
  unfolding triple_loop nest
  triple_loop-Tells p h = nest_ana-Tells (p ∷ p ∷ p ∷ []) (h, (h, (h, tt)))

  -- One to three patterns: the search says yes exactly if a choice along them wins.
  pub by_possible_cards-Tells :
      (ps : List Pattern)
      → All IsTilePattern ps
      → 1 ≤ length ps
      → length ps ≤ 3
      → Tells (Choice ps) (by_possible_cards ct sort no_wild ps)
  unfolding by_possible_cards single_loop double_loop triple_loop nest
  by_possible_cards-Tells [] h a b = absurd (omega arith)
  by_possible_cards-Tells (p ∷ []) h a b = nest_ana-Tells (p ∷ []) h
  by_possible_cards-Tells (p ∷ q ∷ []) h a b = nest_ana-Tells (p ∷ q ∷ []) h
  by_possible_cards-Tells (p ∷ q ∷ r ∷ []) h a b = nest_ana-Tells (p ∷ q ∷ r ∷ []) h
  by_possible_cards-Tells (p ∷ q ∷ r ∷ s ∷ ps) h a b = absurd (omega arith)
