-- ===== src/DataSdk/Accepting.antt =====
-- component/datasdk/datasdk.go: CheckOps over a list of operations, and its panic.
use common_fw.Common.{
  ℕ, ◌≡◌, ◌↔◌, ◌⊎◌, refl, true, Option, none, some, List, [], ◌∷◌, sym, subst, All, ==_iff, inl,
  inr, arith,
}
use common_fw.DataSdk.{Data, number1, number2}
use common_fw.DataSdk.Rules.{
  Rule, OpNumbers, Rules, DataOp, key_of, Route, OpChecked, let_through, op_refused, op_crashes,
  route_of, check_op, same_node, CheckedOps, accepted, panicked, first_node, check_loop, check_ops,
  continue_with, Checked,
}
use common_fw.DataSdk.Checking.{IsTested, check_op-IsTested, tested-check_op}
use common_fw.DataSdk.Legal.{IsLegal, tested-IsLegal, legal-IsTested}

module _ (str_hash : List ℕ → ℕ) (ops : OpNumbers) (rules : Rules) where
  abbrev AllTested : ℕ → List DataOp → Type 0
  AllTested node os = All (λ o. IsTested str_hash ops rules o node) os

  abbrev Accepts : CheckedOps → Type 0
  Accepts c = (last : Option Route) × (c ≡ accepted last)

  -- What a let through operation says of its node.
  on_first :
      (first : Option ℕ) (route : Route)
      → same_node first route.node ≡ true
      → first_node first route ≡ route.node
  on_first none route e = refl
  on_first (some n) route e = (==_iff n route.node).0 e

  -- A loop that accepts has let the operation through, and accepts the rest.
  Accepts-rest :
      (rest : Route → Checked) (o : DataOp) (os : List DataOp) (c : OpChecked)
      → Accepts (continue_with str_hash ops rules rest o os c).result
      → (route : Route) × (c ≡ let_through route) × Accepts (rest route).result
  Accepts-rest rest o os (let_through route) h = (route, refl, h)
  Accepts-rest rest o os (op_refused f) h = (let e = h.1 in absurd (cc))
  Accepts-rest rest o os op_crashes h = (let e = h.1 in absurd (cc))

  loop-AllTested :
      (n : ℕ) (last : Option Route) (os : List DataOp)
      → Accepts (check_loop str_hash ops rules (some n) last os).result
      → AllTested n os
  unfolding check_loop
  loop-AllTested n last [] h = tt
  loop-AllTested n last (o ∷ os) h =
      let through =
        Accepts-rest (λ (route : Route). check_loop str_hash ops rules (some n) (some route) os) o
          os (check_op str_hash ops rules (some n) o) h in
      let legal = check_op-IsTested str_hash ops rules (some n) o through.0 through.1 in
      (
        subst (IsTested str_hash ops rules o) (sym (on_first (some n) through.0 legal.1)) legal.0,
        loop-AllTested n (some through.0) os through.2,
      )

  AllTested-loop :
      (n : ℕ) (last : Option Route) (os : List DataOp)
      → AllTested n os
      → Accepts (check_loop str_hash ops rules (some n) last os).result
  unfolding check_loop
  AllTested-loop n last [] all = (last, refl)
  AllTested-loop n last (o ∷ os) all =
      let through = tested-check_op str_hash ops rules (some n) o n all.0 (ground arith) in
      let run = through.1 in rw (run, check_loop) (AllTested-loop n (some through.0) os all.1)

  first-AllTested :
      (os : List DataOp)
      → Accepts (check_ops str_hash ops rules os).result
      → (node : ℕ) × AllTested node os
  unfolding check_ops check_loop
  first-AllTested [] h = (0, tt)
  first-AllTested (o ∷ os) h =
      let through =
        Accepts-rest
          (λ (route : Route). check_loop str_hash ops rules (some route.node) (some route) os) o os
          (check_op str_hash ops rules none o) h in
      let legal = check_op-IsTested str_hash ops rules none o through.0 through.1 in
      ((through.0).node, (legal.0, loop-AllTested (through.0).node (some through.0) os through.2))

  AllTested-first :
      (node : ℕ) (os : List DataOp)
      → AllTested node os
      → Accepts (check_ops str_hash ops rules os).result
  unfolding check_ops check_loop
  AllTested-first node [] all = (none, refl)
  AllTested-first node (o ∷ os) all =
      let through = tested-check_op str_hash ops rules none o node all.0 refl in
      let run = through.1 in
      let same = through.2 in
      rw (run, check_ops, check_loop, same) (AllTested-loop node (some through.0) os all.1)

  all-AllLegal :
      (node : ℕ) (os : List DataOp)
      → AllTested node os
      → All (λ o. IsLegal str_hash ops rules o node) os
  all-AllLegal node [] h = tt
  all-AllLegal node (o ∷ os) h =
      (tested-IsLegal str_hash ops rules o node h.0, all-AllLegal node os h.1)

  all-AllTested :
      (node : ℕ) (os : List DataOp)
      → All (λ o. IsLegal str_hash ops rules o node) os
      → AllTested node os
  all-AllTested node [] h = tt
  all-AllTested node (o ∷ os) h =
      (legal-IsTested str_hash ops rules o node h.0, all-AllTested node os h.1)

-- CheckOps accepts a list of operations exactly when all of them are legal on one node: each has a
-- type, data and a rule for the data's key, the rule's mask has the operation's bit, which is one of 64,
-- and its data type is the data's, the indexes that the rule wants are given, the route key hashes to
-- the node of the others, and data that are neither read nor deleted have a buffer of their type's size.
pub check_ops-AllLegal :
    (str_hash : List ℕ → ℕ) (ops : OpNumbers) (rules : Rules) (os : List DataOp)
    → ((last : Option Route) × ((check_ops str_hash ops rules os).result ≡ accepted last))
      ↔ ((node : ℕ) × All (λ o. IsLegal str_hash ops rules o node) os)
check_ops-AllLegal str_hash ops rules os = (
  λ h.
      (let t = first-AllTested str_hash ops rules os h in
        (t.0, all-AllLegal str_hash ops rules t.0 os t.1)),
  λ h. AllTested-first str_hash ops rules h.0 os (all-AllTested str_hash ops rules h.0 os h.1),
)

-- CheckOps panics on an operation that has a type and data without a first number, when the data's
-- rule has an index of numbers: the error for an index that is missing is not returned.
pub check_ops-panics :
    (str_hash : List ℕ → ℕ) (ops : OpNumbers) (rules : Rules) (o : DataOp) (os : List DataOp)
    (op : ℕ) (d : Data) (r : Rule)
    → o.op_type ≡ some op
    → o.value ≡ some d
    → rules (key_of d) ≡ some r
    → (r.index_type ≡ number1) ⊎ (r.index_type ≡ number2)
    → d.num_index1 ≡ none
    → (check_ops str_hash ops rules (o ∷ os)).result ≡ panicked
unfolding check_ops check_loop check_op route_of
check_ops-panics str_hash ops rules o os op d r t v has_r (inl i) e =
    rw (t, v, has_r, i, e, check_ops, check_loop, check_op, route_of) refl
check_ops-panics str_hash ops rules o os op d r t v has_r (inr i) e =
    rw (t, v, has_r, i, e, check_ops, check_loop, check_op, route_of) refl
