-- ===== src/Mahjong/Hand/Counting.antt =====
-- What `init` counts.
use common_fw.Common.{
  ℕ, ◌+◌, ◌-◌, ◌≤◌, ◌≡◌, refl, ◌∙◌, ap, true, false, ◌&&◌, ◌||◌, List, [], ◌∷◌, ◌++◌, ◌==◌,
  if◌then◌else◌, ok, arith, All,
}
use common_fw.Mahjong.Cards.{CardInformation, CardTypes, IsNumbered}
use common_fw.Mahjong.Analyser.{HuAnalyser001, set_row}
use common_fw.Mahjong.Analyser.Decomposition.{sum_to}
use common_fw.Mahjong.Analyser.Loops.{IsCounted}
use common_fw.Mahjong.Hand.{bump, rejected, init, new_analyser}

-- The cards of suit index `k` with the value `v`, and for `v = 0` all cards of the suit.
unfoldable pub tally : List CardInformation → ℕ → ℕ → ℕ
tally [] k v = 0
tally (c ∷ cs) k v = (if c.type == k + 1 && (v == 0 || c.value == v) then 1 else 0) + tally cs k v

pub tally-append :
    (xs ys : List CardInformation) (k v : ℕ) → tally (xs ++ ys) k v ≡ tally xs k v + tally ys k v
unfolding tally
tally-append [] ys k v = omega arith
tally-append (x ∷ xs) ys k v = omega (arith, tally-append xs ys k v)

-- A tile: values 1 to 9 in the three suits, 1 to 7 for honours.
abbrev pub IsTile : CardInformation → Type 0
IsTile c = (1 ≤ c.type) × (c.type ≤ 4) × (1 ≤ c.value) × (c.value ≤ 9) × (c.type ≡ 4 → c.value ≤ 7)

abbrev pub counters : List CardInformation → HuAnalyser001
counters ts = record { all_pai = tally ts }

add_tally : HuAnalyser001 → List CardInformation → HuAnalyser001
add_tally ha ts = record { all_pai = λ k v. ha.all_pai k v + tally ts k v }

pub analyser_ext : (a b : HuAnalyser001) → ((k v : ℕ) → a.all_pai k v ≡ b.all_pai k v) → a ≡ b
analyser_ext a b h = λ i. record { all_pai = λ k v. h k v i }

module _ (ct : CardTypes) (numbered : IsNumbered ct) where
  tile-rejected : (c : CardInformation) → IsTile c → rejected ct c ≡ false
  tile-rejected c t = ground (arith, numbered)

  bump-tally :
      (ha : HuAnalyser001) (c : CardInformation) (cs : List CardInformation)
      → IsTile c
      → add_tally (set_row ha (c.type - 1) (bump (ha.all_pai (c.type - 1)) c.value)) cs
        ≡ add_tally ha (c ∷ cs)
  unfolding add_tally tally
  bump-tally ha c cs t = analyser_ext _ _ pointwise
    where
      pointwise :
          (k v : ℕ)
          → (if k == c.type - 1 then bump (ha.all_pai (c.type - 1)) c.value else ha.all_pai k) v
              + tally cs k v
            ≡ ha.all_pai k v
              + ((if c.type == k + 1 && (v == 0 || c.value == v) then 1 else 0) + tally cs k v)
      pointwise k v = ground arith

  init-tally :
      (ts : List CardInformation) (ha : HuAnalyser001)
      → All IsTile ts
      → init ct ts ha ≡ ok (add_tally ha ts)
  unfolding init
  init-tally [] ha t =
      unfold add_tally tally in ap ok (analyser_ext ha (add_tally ha []) (λ k v. omega arith))
  init-tally (c ∷ cs) ha t = ground (
    arith,
    tile-rejected c t.0,
    bump-tally ha c cs t.0,
    init-tally cs (set_row ha (c.type - 1) (bump (ha.all_pai (c.type - 1)) c.value)) t.1,
  )

  -- From new counters, `init` counts a hand of tiles by suit and value, and each suit's tiles at index 0.
  pub init-new :
      (ts : List CardInformation) → All IsTile ts → init ct ts new_analyser ≡ ok (counters ts)
  init-new ts t =
      init-tally ts new_analyser t
      ∙ unfold add_tally in
        ap ok (analyser_ext (add_tally new_analyser ts) (counters ts) (λ k v. omega arith))

module _ (ct : CardTypes) where
  -- A card that is no tile ends the count: the cards behind it are not looked at.
  pub init-append_rejected :
      (ts more : List CardInformation) (bad : CardInformation) (ha : HuAnalyser001)
      → rejected ct bad ≡ true
      → init ct (ts ++ (bad ∷ more)) ha ≡ init ct ts ha
  unfolding init
  init-append_rejected [] more bad ha r = ground arith
  init-append_rejected (c ∷ cs) more bad ha r = ground (
    arith,
    init-append_rejected cs more bad
        (set_row ha (c.type - 1) (bump (ha.all_pai (c.type - 1)) c.value)) r,
  )

pub counters-IsCounted : (ts : List CardInformation) → All IsTile ts → IsCounted (counters ts)
unfolding tally sum_to
counters-IsCounted [] t k h = refl
counters-IsCounted (c ∷ cs) t k h = ground (arith, counters-IsCounted cs t.1 k h)
