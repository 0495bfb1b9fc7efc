-- ===== src/Gps/Groups.antt =====
-- What a near pair of users makes of the groups.
use common_fw.Common.{
  ℕ, zero, suc, ◌+◌, ◌*◌, ◌≤◌, ◌<◌, ◌≡◌, refl, true, ◌||◌, List, [], ◌∷◌, ◌++◌, map, ◌==◌,
  if◌then◌else◌, length, length-append, replicate, Assoc, assign, lookup-assign_same,
  lookup-assign_other, ok, Bool-cases, inl, inr, arith,
}
use mathlib.Core.List.{append_assoc, map-append}
use common_fw.Gps.{has, with_pair, similar_loop, add_pair}

pub has-assign :
    {F : Type 0} (m : Assoc F) (k j : ℕ) (v : F) → has (assign m k v) j ≡ (j == k) || has m j
has-assign m k j v = elim (Bool-cases (j == k)) [
  | inl e ↦
      (let same : j ≡ k = ground arith in rw same (rw (lookup-assign_same m k v) (ground arith)))
  | inr e ↦ rw (e, lookup-assign_other m k j v (ground arith)) refl
]

module _ {F : Type 0} (a b : ℕ) (d : F) where
  -- A group that has one of the two users takes both.
  abbrev pub touched : Assoc F → Assoc F
  touched m = if has m a || has m b then with_pair a b d m else m

  -- How many groups have neither.
  abbrev pub lacking : List (Assoc F) → ℕ
  lacking [] = 0
  lacking (m ∷ ms) = let rest = lacking ms in if has m a || has m b then rest else suc rest

  abbrev pub new_group : Assoc F
  new_group = with_pair a b d []

  has-new_group : has new_group a || has new_group b ≡ true
  has-new_group = ground arith

  touched-new_group : touched new_group ≡ new_group
  touched-new_group = ground arith

  lacking-append_new : (ms : List (Assoc F)) → lacking (ms ++ (new_group ∷ [])) ≡ lacking ms
  lacking-append_new [] = rw has-new_group refl
  lacking-append_new (m ∷ ms) = rw (lacking-append_new ms) refl

  pub similar_loop_lem :
      (n : ℕ) (ms : List (Assoc F))
      → length ms + lacking ms < n
      → similar_loop n a b d ms ≡ ok (map touched ms ++ replicate (lacking ms) new_group)
  unfolding similar_loop
  similar_loop_lem zero ms h = elim h [ ]
  similar_loop_lem (suc n) [] h = refl
  similar_loop_lem (suc n) (m ∷ ms) h = elim (Bool-cases (has m a || has m b)) [
    | inl e ↦
        (let less = rw e at h in let ih = similar_loop_lem n ms (omega arith) in rw (e, ih) refl)
    | inr e ↦
        (let less = rw e at h in
          let longer = length-append ms (new_group ∷ []) in
          let same = lacking-append_new ms in
          let ih = similar_loop_lem n (ms ++ (new_group ∷ [])) (omega arith) in
          rw (e, ih, same, map-append touched ms (new_group ∷ []), touched-new_group)
            (rw (append_assoc (map touched ms) (new_group ∷ []) (replicate (lacking ms) new_group))
              refl))
  ]

  lacking_at_most : (ms : List (Assoc F)) → lacking ms ≤ length ms
  lacking_at_most [] = omega arith
  lacking_at_most (m ∷ ms) = ground (arith, lacking_at_most ms)

  -- What a near pair of users makes of the groups.
  abbrev pub joined : List (Assoc F) → List (Assoc F)
  joined [] = new_group ∷ []
  joined (m ∷ ms) = map touched (m ∷ ms) ++ replicate (lacking (m ∷ ms)) new_group

  pub add_pair_lem : (ms : List (Assoc F)) → add_pair a b d ms ≡ ok (joined ms)
  unfolding add_pair
  add_pair_lem [] = refl
  add_pair_lem (m ∷ ms) =
      let few = lacking_at_most (m ∷ ms) in
      similar_loop_lem (2 * length (m ∷ ms) + 1) (m ∷ ms) (omega arith)
