-- ===== src/Mahjong/Parallel/Answers.antt =====
-- A run that returns true has a call that answers yes.
use common_fw.Common.{
  ℕ, zero, suc, ◌+◌, ◌≤◌, ◌<◌, ◌≡◌, refl, ap, sym, subst, ◌⊎◌, inl, inr, Bool, true, false, List,
  [], ◌∷◌, ◌++◌, map, Outcome, ok, All, arith,
}
use common_fw.Mahjong.Wild.Search.{Any}
use common_fw.Mahjong.Parallel.Sound.{IsTrue, Steps-IsFound}
use common_fw.Mahjong.Parallel.Search.{values, nested, MayReturn, Answers}

-- Lemmas on what some element of a list satisfies.
pub Any-append {ℓ} :
    {A : Type ℓ} (P : A → Type 0) (xs ys : List A) → Any P (xs ++ ys) → Any P xs ⊎ Any P ys
Any-append P [] ys a = inr a
Any-append P (x ∷ xs) ys (inl a) = inl (inl a)
Any-append P (x ∷ xs) ys (inr a) = elim (Any-append P xs ys a) [
  | inl b ↦ inl (inr b)
  | inr b ↦ inr b
]

pub Any-map {ℓ κ} :
    {A : Type ℓ} {B : Type κ} (P : B → Type 0) (f : A → B) (xs : List A)
    → Any P (map f xs)
    → Any (λ x. P (f x)) xs
Any-map P f [] a = a
Any-map P f (x ∷ xs) (inl a) = inl a
Any-map P f (x ∷ xs) (inr a) = inr (Any-map P f xs a)

pub Any-imp {ℓ} :
    {A : Type ℓ} (P Q : A → Type 0) (xs : List A) → All (λ x. P x → Q x) xs → Any P xs → Any Q xs
Any-imp P Q [] h a = a
Any-imp P Q (x ∷ xs) h (inl a) = inl (h.0 a)
Any-imp P Q (x ∷ xs) h (inr a) = inr (Any-imp P Q xs h.1 a)

pub All-each {ℓ} : {A : Type ℓ} (P : A → Type 0) (xs : List A) → ((x : A) → P x) → All P xs
All-each P [] f = tt
All-each P (x ∷ xs) f = (f x, All-each P xs f)

pub Any-nested {ℓ} :
    {A : Type ℓ} (P : A → Type 0) (f : ℕ → List A) (xs : List ℕ)
    → Any P (nested xs f)
    → Any (λ x. Any P (f x)) xs
Any-nested P f [] a = a
Any-nested P f (x ∷ xs) a = elim (Any-append P (f x) (nested xs f) a) [
  | inl b ↦ inl b
  | inr b ↦ inr (Any-nested P f xs b)
]

pub Any-values :
    (P : ℕ → Type 0) (n i : ℕ) → Any P (values n i) → (x : ℕ) × (i ≤ x) × (x < i + n) × P x
Any-values P zero i a = absurd a
Any-values P (suc n) i (inl a) = (i, omega arith, omega arith, a)
Any-values P (suc n) i (inr a) =
    let (x, l, h, p) = Any-values P n (i + 1) a in (x, omega arith, omega arith, p)

abbrev pub IsYes : Outcome Bool → Type 0
IsYes o = o ≡ ok true

computed-IsYes :
    (branches : List (List Bool))
    → Any (Any IsTrue) branches
    → Any (Any IsYes) (map (map ok) branches)
computed-IsYes [] a = a
computed-IsYes (bs ∷ branches) (inl a) = inl (from bs a)
  where
    from : (bs : List Bool) → Any IsTrue bs → Any IsYes (map ok bs)
    from [] a = a
    from (b ∷ bs) (inl a) = inl (ap ok a)
    from (b ∷ bs) (inr a) = inr (from bs a)
computed-IsYes (bs ∷ branches) (inr a) = inr (computed-IsYes branches a)

pub MayReturn-IsYes :
    (capacity : ℕ) (computed : List (List (Outcome Bool)))
    → MayReturn capacity computed true
    → Any (Any IsYes) computed
MayReturn-IsYes capacity computed (branches, e, s, r, f) =
    subst (Any (Any IsYes)) (sym e)
      (computed-IsYes branches (Steps-IsFound capacity branches s r f))

-- Calls whose answers hold a yes.
pub Answers-IsYes :
    (R : List ℕ → Bool → Type 0) (rows : List (List ℕ)) (bs : List Bool)
    → Answers R rows bs
    → Any IsTrue bs
    → Any (λ row. R row true) rows
Answers-IsYes R [] [] h a = absurd a
Answers-IsYes R [] (b ∷ bs) h a = absurd h
Answers-IsYes R (row ∷ rows) [] h a = absurd h
Answers-IsYes R (row ∷ rows) (b ∷ bs) h (inl a) = inl (subst (R row) a h.0)
Answers-IsYes R (row ∷ rows) (b ∷ bs) h (inr a) = inr (Answers-IsYes R rows bs h.1 a)

pub single-IsYes : (bs : List Bool) → Any (Any IsYes) (map (λ h. ok h ∷ []) bs) → Any IsTrue bs
single-IsYes [] a = a
single-IsYes (true ∷ bs) a = inl refl
single-IsYes (false ∷ bs) (inl (inl e)) = absurd (cc)
single-IsYes (false ∷ bs) (inl (inr x)) = absurd x
single-IsYes (false ∷ bs) (inr a) = inr (single-IsYes bs a)
