-- ===== src/Mahjong/Wild/Select.antt =====
-- The rows that Ana3NP2WildMenCardsOpt selects (allZeroIndex and normalIndex).
use common_fw.Common.{ℕ, ◌≡◌, ◌⊎◌, inl, inr, Bool, true, List, [], ◌∷◌, All, Bool-cases}
use common_fw.Mahjong.Wild.{select}
use common_fw.Mahjong.Wild.Search.{Any}

pub All-select :
    (Q : List ℕ → Type 0) (test : List ℕ → Bool) (rows : List (List ℕ))
    → All (λ row. test row ≡ true → Q row) rows
    → All Q (select test rows)
All-select Q test [] h = tt
All-select Q test (row ∷ rows) h = elim (Bool-cases (test row)) [
  | inl e ↦ rw e (h.0 e, All-select Q test rows h.1)
  | inr e ↦ rw e (All-select Q test rows h.1)
]

pub Any-select_in :
    (P : List ℕ → Type 0) (test : List ℕ → Bool) (rows : List (List ℕ))
    → Any (λ row. (test row ≡ true) × P row) rows
    → Any P (select test rows)
Any-select_in P test [] h = h
Any-select_in P test (row ∷ rows) (inl (e, p)) = rw e (inl p)
Any-select_in P test (row ∷ rows) (inr h) = elim (Bool-cases (test row)) [
  | inl e ↦ rw e (inr (Any-select_in P test rows h))
  | inr e ↦ rw e (Any-select_in P test rows h)
]

pub Any-select_out :
    (P : List ℕ → Type 0) (test : List ℕ → Bool) (rows : List (List ℕ))
    → Any P (select test rows)
    → Any (λ row. (test row ≡ true) × P row) rows
Any-select_out P test [] h = h
Any-select_out P test (row ∷ rows) h = elim (Bool-cases (test row)) [
  | inl e ↦ here e (Any-select_out P test rows) (rw e at h)
  | inr e ↦ inr (Any-select_out P test rows (rw e at h))
]
  where
    here :
        test row ≡ true
        → (Any P (select test rows) → Any (λ r. (test r ≡ true) × P r) rows)
        → P row ⊎ Any P (select test rows)
        → Any (λ r. (test r ≡ true) × P r) (row ∷ rows)
    here e more (inl p) = inl (e, p)
    here e more (inr q) = inr (more q)
