-- ===== src/DataSdk/Checking.antt =====
-- component/datasdk/datasdk.go: what CheckOps lets through.
use common_fw.Common.{
  ℕ, ◌≡◌, ◌⊎◌, ◌<◌, refl, Bool, true, false, not, ◌||◌, Option, none, some, List, ◌==◌,
  if◌then◌else◌, length, Bool-cases, inl, inr, sym, ◌∙◌, ap, ==_iff, arith,
}
use common_fw.DataSdk.{
  Data, DataType, int32, uint32_type, int64, uint64_type, buffer, other_data_type, same_type,
}
use common_fw.DataSdk.Rules.{
  Rule, OpNumbers, Rules, has_op, DataOp, key_of, Route, Check, passes, refuses, crashes, route_of,
  check_rule, check_buffer, lacks_index, invalid_action, unmatched_data_type, invalid_index,
  type_matches, let_through, check_op, by_parts, by_rule, by_route, after_rule, same_node,
}

-- The bytes of a value that is not read or deleted.
abbrev pub IsSized : DataType → ℕ → Type 0
IsSized int32 n = n ≡ 4
IsSized uint32_type n = n ≡ 4
IsSized int64 n = n ≡ 8
IsSized uint64_type n = n ≡ 8
IsSized buffer n = 0 < n
IsSized (other_data_type k) n = ⊥

module _ (str_hash : List ℕ → ℕ) (ops : OpNumbers) (rules : Rules) where
  -- An operation that passes the tests of the code.
  pub record IsTested (o : DataOp) (node : ℕ) : Type 0 where
    pub op : ℕ
    pub value : Data
    pub rule : Rule
    pub route : Route
    pub has_type : o.op_type ≡ some op
    pub has_value : o.value ≡ some value
    pub has_rule : rules (key_of value) ≡ some rule
    pub has_route : route_of str_hash rule.index_type value ≡ some route
    pub on_node : route.node ≡ node
    pub permitted : has_op rule.op_mask op ≡ true
    pub typed : type_matches value.data_type rule.data_type ≡ true
    pub indexed : lacks_index ops rule.index_type op value ≡ false
    pub sized :
        (op ≡ ops.op_get) ⊎ (op ≡ ops.op_del) ⊎ IsSized rule.data_type (length value.data_buffer)

tests-pass :
    (permitted typed lacking free : Bool) (k : Check)
    → (if not permitted
        then refuses invalid_action
        else (if not typed
            then refuses unmatched_data_type
            else (if lacking then refuses invalid_index else (if free then passes else k))))
      ≡ passes
    → (permitted ≡ true) × (typed ≡ true) × (lacking ≡ false) × ((free ≡ true) ⊎ (k ≡ passes))
tests-pass permitted typed lacking free k h = ground arith

buffer-IsSized :
    (t s : DataType) (n : ℕ) → same_type t s ≡ true → check_buffer (some s) n ≡ passes → IsSized t n
buffer-IsSized int32 s n e h = ground arith
buffer-IsSized uint32_type s n e h = ground arith
buffer-IsSized int64 s n e h = ground arith
buffer-IsSized uint64_type s n e h = ground arith
buffer-IsSized buffer s n e h = ground arith
buffer-IsSized (other_data_type k) s n e h = ground arith

typed-IsSized :
    (o : Option DataType) (t : DataType) (n : ℕ)
    → type_matches o t ≡ true
    → check_buffer o n ≡ passes
    → IsSized t n
typed-IsSized none t n e h = absurd (cc)
typed-IsSized (some s) t n e h = buffer-IsSized t s n e h

buffer-passes :
    (t s : DataType) (n : ℕ) → same_type t s ≡ true → IsSized t n → check_buffer (some s) n ≡ passes
buffer-passes int32 s n e h = ground arith
buffer-passes uint32_type s n e h = ground arith
buffer-passes int64 s n e h = ground arith
buffer-passes uint64_type s n e h = ground arith
buffer-passes buffer s n e h = ground arith
buffer-passes (other_data_type k) s n e h = ground arith

typed-passes :
    (o : Option DataType) (t : DataType) (n : ℕ)
    → type_matches o t ≡ true
    → IsSized t n
    → check_buffer o n ≡ passes
typed-passes none t n e h = absurd (cc)
typed-passes (some s) t n e h = buffer-passes t s n e h

free_or_sized :
    (ops : OpNumbers) (r : Rule) (op : ℕ) (d : Data)
    → type_matches d.data_type r.data_type ≡ true
    → (((op == ops.op_get) || (op == ops.op_del)) ≡ true)
      ⊎ (check_buffer d.data_type (length d.data_buffer) ≡ passes)
    → (op ≡ ops.op_get) ⊎ (op ≡ ops.op_del) ⊎ IsSized r.data_type (length d.data_buffer)
free_or_sized ops r op d e (inl f) = elim (Bool-cases (op == ops.op_get)) [
  | inl g ↦ inl ((==_iff op ops.op_get).0 g)
  | inr g ↦ inr (inl ((==_iff op ops.op_del).0 (ground arith)))
]
free_or_sized ops r op d e (inr f) =
    inr (inr (typed-IsSized d.data_type r.data_type (length d.data_buffer) e f))

after_rule-route :
    (c : Check) (route' route : Route) → after_rule c route' ≡ let_through route → route' ≡ route
after_rule-route passes route' route e = cc
after_rule-route (refuses f) route' route e = absurd (cc)
after_rule-route crashes route' route e = absurd (cc)

module _ (str_hash : List ℕ → ℕ) (ops : OpNumbers) (rules : Rules) where
  checked-IsTested :
      (o : DataOp) (op : ℕ) (d : Data) (r : Rule) (route' route : Route) (c : Check)
      → check_rule ops r op d ≡ c
      → o.op_type ≡ some op
      → o.value ≡ some d
      → rules (key_of d) ≡ some r
      → route_of str_hash r.index_type d ≡ some route'
      → after_rule c route' ≡ let_through route
      → IsTested str_hash ops rules o route.node
  unfolding check_rule
  checked-IsTested o op d r route' route passes run t v has_r has_route e =
      let same : route' ≡ route = cc in
      let all =
        tests-pass (has_op r.op_mask op) (type_matches d.data_type r.data_type)
          (lacks_index ops r.index_type op d) ((op == ops.op_get) || (op == ops.op_del))
          (check_buffer d.data_type (length d.data_buffer)) run in
      record {
        op = op;
        value = d;
        rule = r;
        route = route;
        has_type = t;
        has_value = v;
        has_rule = has_r;
        has_route = has_route ∙ ap some same;
        on_node = refl;
        permitted = all.0;
        typed = all.1;
        indexed = all.2;
        sized = free_or_sized ops r op d all.1 all.3;
      }
  checked-IsTested o op d r route' route (refuses f) run t v has_r has_route e = absurd (cc)
  checked-IsTested o op d r route' route crashes run t v has_r has_route e = absurd (cc)

  routed-IsTested :
      (first : Option ℕ) (o : DataOp) (op : ℕ) (d : Data) (r : Rule) (ro : Option Route)
      (route : Route)
      → o.op_type ≡ some op
      → o.value ≡ some d
      → rules (key_of d) ≡ some r
      → route_of str_hash r.index_type d ≡ ro
      → by_route str_hash ops first r op d ro ≡ let_through route
      → IsTested str_hash ops rules o route.node × (same_node first route.node ≡ true)
  routed-IsTested first o op d r none route t v has_r has_route e = absurd (cc)
  routed-IsTested first o op d r (some route') route t v has_r has_route e =
      elim (Bool-cases (same_node first route'.node)) [
        | inl f ↦
            let e' = rw f at e in
            let same = after_rule-route (check_rule ops r op d) route' route e' in
            (
              checked-IsTested o op d r route' route (check_rule ops r op d) refl t v has_r
                  has_route e',
              ap (λ (x : Route). same_node first x.node) (sym same) ∙ f,
            )
        | inr f ↦ (let e' = rw f at e in absurd (cc))
      ]

  ruled-IsTested :
      (first : Option ℕ) (o : DataOp) (op : ℕ) (d : Data) (r : Option Rule) (route : Route)
      → o.op_type ≡ some op
      → o.value ≡ some d
      → rules (key_of d) ≡ r
      → by_rule str_hash ops first op d r ≡ let_through route
      → IsTested str_hash ops rules o route.node × (same_node first route.node ≡ true)
  ruled-IsTested first o op d none route t v has_r e = absurd (cc)
  ruled-IsTested first o op d (some r) route t v has_r e =
      routed-IsTested first o op d r (route_of str_hash r.index_type d) route t v has_r refl e

  parts-IsTested :
      (first : Option ℕ) (o : DataOp) (t : Option ℕ) (v : Option Data) (route : Route)
      → o.op_type ≡ t
      → o.value ≡ v
      → by_parts str_hash ops rules first t v ≡ let_through route
      → IsTested str_hash ops rules o route.node × (same_node first route.node ≡ true)
  parts-IsTested first o none v route e f h = absurd (cc)
  parts-IsTested first o (some op) none route e f h = absurd (cc)
  parts-IsTested first o (some op) (some d) route e f h =
      ruled-IsTested first o op d (rules (key_of d)) route e f refl h

  pub check_op-IsTested :
      (first : Option ℕ) (o : DataOp) (route : Route)
      → check_op str_hash ops rules first o ≡ let_through route
      → IsTested str_hash ops rules o route.node × (same_node first route.node ≡ true)
  unfolding check_op
  check_op-IsTested first o route h = parts-IsTested first o o.op_type o.value route refl refl h

  sized_passes :
      (op : ℕ) (d : Data) (r : Rule)
      → type_matches d.data_type r.data_type ≡ true
      → (op ≡ ops.op_get) ⊎ (op ≡ ops.op_del) ⊎ IsSized r.data_type (length d.data_buffer)
      → (if (op == ops.op_get) || (op == ops.op_del)
          then passes
          else check_buffer d.data_type (length d.data_buffer))
        ≡ passes
  sized_passes op d r e (inl f) = ground arith
  sized_passes op d r e (inr (inl f)) = ground arith
  sized_passes op d r e (inr (inr f)) =
      let buf = typed-passes d.data_type r.data_type (length d.data_buffer) e f in ground arith

  tested-check_rule :
      {o : DataOp} {node : ℕ} (l : IsTested str_hash ops rules o node)
      → check_rule ops l.rule l.op l.value ≡ passes
  unfolding check_rule
  tested-check_rule l =
      let p = l.permitted in
      let t = l.typed in
      let i = l.indexed in rw (p, t, i) (sized_passes l.op l.value l.rule t l.sized)

  -- An operation that passes the tests, on the node of the first one, is let through.
  pub tested-check_op :
      (first : Option ℕ) (o : DataOp) (node : ℕ)
      → IsTested str_hash ops rules o node
      → same_node first node ≡ true
      → (route : Route) × (check_op str_hash ops rules first o ≡ let_through route)
        × (route.node ≡ node)
  unfolding check_op check_rule
  tested-check_op first o node l e =
      let t = l.has_type in
      let v = l.has_value in
      let r = l.has_rule in
      let ro = l.has_route in
      let on = l.on_node in
      let same : same_node first l.route.node ≡ true = ap (same_node first) on ∙ e in
      let run = tested-check_rule l in (l.route, rw (t, v, r, ro, same, run, check_op) refl, on)
