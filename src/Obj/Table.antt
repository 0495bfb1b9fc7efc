-- ===== src/Obj/Table.antt =====
-- component/obj/obj.go: the sound table of a manager, and deletions from it.
use common_fw.Common.{
  ℕ, ◌≤◌, ◌≡◌, ◌≢◌, refl, inl, inr, Option, none, some, [], ◌∷◌, ◌==◌, length, arith, All,
  Bool-cases,
}
use common_fw.Obj.{Object, ObMap, lookup, delete, BaseObMng}

-- An entry holds the object whose id is its key.
abbrev pub IsEntry : ℕ × Option Object → Type 0
IsEntry (k, none) = k ≢ k
IsEntry (k, some o) = o.id ≡ k

-- No key has two entries.
abbrev pub IsKeyed : ObMap → Type 0
IsKeyed [] = Unit
IsKeyed ((k, o) ∷ m) = (lookup k m ≡ none) × IsKeyed m

pub record IsSound (b : BaseObMng) : Type 0 where
  pub entries : All IsEntry b.ob_map
  pub keyed : IsKeyed b.ob_map
  pub capacity : (1 ≤ b.cap) → length b.ob_map ≤ b.cap

pub delete-All : (id : ℕ) (m : ObMap) → All IsEntry m → All IsEntry (delete id m)
delete-All id [] h = tt
delete-All id ((k, o) ∷ m) h = elim (Bool-cases (k == id)) [
  | inl e ↦ rw e (delete-All id m h.1)
  | inr e ↦ rw e (h.0, delete-All id m h.1)
]

pub length-delete : (id : ℕ) (m : ObMap) → length (delete id m) ≤ length m
length-delete id [] = omega arith
length-delete id ((k, o) ∷ m) = ground (arith, length-delete id m)

pub lookup-delete : (id : ℕ) (m : ObMap) → lookup id (delete id m) ≡ none
lookup-delete id [] = refl
lookup-delete id ((k, o) ∷ m) = ground (arith, lookup-delete id m)

lookup-delete_other : (id j : ℕ) (m : ObMap) → j ≢ id → lookup j (delete id m) ≡ lookup j m
lookup-delete_other id j [] n = refl
lookup-delete_other id j ((k, o) ∷ m) n = ground (arith, lookup-delete_other id j m n)

lookup-delete_none : (id j : ℕ) (m : ObMap) → lookup j m ≡ none → lookup j (delete id m) ≡ none
lookup-delete_none id j [] h = refl
lookup-delete_none id j ((k, o) ∷ m) h = elim (Bool-cases (k == j)) [
  | inl e ↦ absurd (let h' = rw e at h in ground arith)
  | inr e ↦
      let rest = lookup-delete_none id j m (rw e at h) in
      elim (Bool-cases (k == id)) [ inl q ↦ rw q rest | inr q ↦ rw (q, e) rest ]
]

pub delete-IsKeyed : (id : ℕ) (m : ObMap) → IsKeyed m → IsKeyed (delete id m)
delete-IsKeyed id [] h = tt
delete-IsKeyed id ((k, o) ∷ m) h = elim (Bool-cases (k == id)) [
  | inl e ↦ rw e (delete-IsKeyed id m h.1)
  | inr e ↦ rw e (lookup-delete_none id k m h.0, delete-IsKeyed id m h.1)
]

pub delete-IsSound :
    (id : ℕ) (b : BaseObMng) → IsSound b → IsSound (record b { ob_map = delete id b.ob_map })
delete-IsSound id b s = record {
  entries = delete-All id b.ob_map s.entries;
  keyed = delete-IsKeyed id b.ob_map s.keyed;
  capacity = λ h. omega (arith, s.capacity h, length-delete id b.ob_map);
}
