-- ===== src/DataSdk/Legal.antt =====
-- component/datasdk/datasdk.go: the operations that CheckOps is to accept, said without its code.
use common_fw.Common.{
  ℕ, ◌/◌, ◌%◌, ◌^◌, ◌<◌, ◌≡◌, ◌⊎◌, refl, Bool, true, false, not, ◌||◌, Option, none, some, List,
  ◌==◌, length, put_uint64, Bool-cases, inl, inr, sym, subst, ◌∙◌, ap, ==_iff, arith,
}
use common_fw.Utils.Hash.{tm_hash_num, tm_hash_str}
use common_fw.DataSdk.{Data, DataType, IndexType, number1, number2, string_index, other_index_type}
use common_fw.DataSdk.Rules.{
  Rule, OpNumbers, Rules, Key, plain, second, has_op, DataOp, key_of, Route, route_of, route_number,
  lacks_index, type_matches, is_given,
}
use common_fw.DataSdk.Values.{same_type_refl, same_type_sound}
use common_fw.DataSdk.Checking.{IsTested, IsSized}

-- The key of data: their id, with the second number where there is one.
abbrev pub IsKey : Data → Key → Type 0
IsKey d (plain id) = (d.data_id ≡ id) × (d.num_index2 ≡ none)
IsKey d (second id j) = (d.data_id ≡ id) × (d.num_index2 ≡ some j)

-- The node that the route key of data hashes to, one of 512.
abbrev pub IsOnNode : (List ℕ → ℕ) → IndexType → Data → ℕ → Type 0
IsOnNode str_hash number1 d node =
    (i : ℕ) × (d.num_index1 ≡ some i) × (node ≡ tm_hash_num 512 (put_uint64 i))
IsOnNode str_hash number2 d node =
    (i : ℕ) × (d.num_index1 ≡ some i) × (node ≡ tm_hash_num 512 (put_uint64 i))
IsOnNode str_hash string_index d node = node ≡ tm_hash_str str_hash 512 d.str_index
IsOnNode str_hash (other_index_type n) d node = ⊥

-- The indexes of data that an operation needs; to read data with two numbers one is enough.
abbrev pub HasIndex : OpNumbers → IndexType → ℕ → Data → Type 0
HasIndex ops number1 op d = (i : ℕ) × (d.num_index1 ≡ some i)
HasIndex ops number2 op d =
    (op ≡ ops.op_get) ⊎ ((i : ℕ) × (j : ℕ) × (d.num_index1 ≡ some i) × (d.num_index2 ≡ some j))
HasIndex ops string_index op d = 0 < length d.str_index
HasIndex ops (other_index_type n) op d = Unit

module _ (str_hash : List ℕ → ℕ) (ops : OpNumbers) (rules : Rules) where
  -- An operation as its rule wants it.
  pub record IsLegal (o : DataOp) (node : ℕ) : Type 0 where
    pub op : ℕ
    pub value : Data
    pub key : Key
    pub rule : Rule
    pub has_type : o.op_type ≡ some op
    pub has_value : o.value ≡ some value
    pub is_key : IsKey value key
    pub has_rule : rules key ≡ some rule
    pub on_node : IsOnNode str_hash rule.index_type value node
    pub is_bit : op < 64
    pub permitted : rule.op_mask / 2 ^ op % 2 ≡ 1
    pub typed : value.data_type ≡ some rule.data_type
    pub indexed : HasIndex ops rule.index_type op value
    pub sized :
        (op ≡ ops.op_get) ⊎ (op ≡ ops.op_del) ⊎ IsSized rule.data_type (length value.data_buffer)

key_of-IsKey : (d : Data) → IsKey d (key_of d)
key_of-IsKey d = at d.num_index2 refl
  where
    at :
        (o : Option ℕ)
        → d.num_index2 ≡ o
        → IsKey d (elim o [ none ↦ plain d.data_id | some j ↦ second d.data_id j ])
    at none e = (refl, e)
    at (some j) e = (refl, e)

IsKey-key_of : (d : Data) (k : Key) → IsKey d k → key_of d ≡ k
IsKey-key_of d (plain id) h = (let a = h.0 in let b = h.1 in rw (b, key_of) (ap plain a))
IsKey-key_of d (second id j) h =
    (let a = h.0 in let b = h.1 in rw (b, key_of) (ap (λ x. second x j) a))

permitted-bit : (mask op : ℕ) → has_op mask op ≡ true → (op < 64) × (mask / 2 ^ op % 2 ≡ 1)
permitted-bit mask op h = ground arith

bit-permitted : (mask op : ℕ) → op < 64 → mask / 2 ^ op % 2 ≡ 1 → has_op mask op ≡ true
bit-permitted mask op h e = ground arith

matches-type : (o : Option DataType) (t : DataType) → type_matches o t ≡ true → o ≡ some t
matches-type none t e = absurd (cc)
matches-type (some s) t e = ap some (sym (same_type_sound t s e))

type-matches : (o : Option DataType) (t : DataType) → o ≡ some t → type_matches o t ≡ true
type-matches none t e = absurd (cc)
type-matches (some s) t e = (let refl_t = same_type_refl t in ground arith)

given : (o : Option ℕ) → is_given o ≡ true → (i : ℕ) × (o ≡ some i)
given none e = absurd (cc)
given (some i) e = (i, refl)

-- The node of a route, by the index.
number-node :
    (str_hash : List ℕ → ℕ) (t : IndexType) (o : Option ℕ) (route : Route)
    → route_number str_hash t o ≡ some route
    → (i : ℕ) × (o ≡ some i) × (route.node ≡ tm_hash_num 512 (put_uint64 i))
number-node str_hash t none route e = absurd (cc)
number-node str_hash t (some i) route e = (i, refl, ground arith)

node-number :
    (str_hash : List ℕ → ℕ) (t : IndexType) (o : Option ℕ) (node : ℕ)
    → ((i : ℕ) × (o ≡ some i) × (node ≡ tm_hash_num 512 (put_uint64 i)))
    → (route : Route) × (route_number str_hash t o ≡ some route) × (route.node ≡ node)
node-number str_hash t o node h = (_, ap (route_number str_hash t) h.1, sym h.2)

route-IsOnNode :
    (str_hash : List ℕ → ℕ) (t : IndexType) (d : Data) (route : Route)
    → route_of str_hash t d ≡ some route
    → IsOnNode str_hash t d route.node
unfolding route_of
route-IsOnNode str_hash number1 d route e = number-node str_hash number1 d.num_index1 route e
route-IsOnNode str_hash number2 d route e = number-node str_hash number2 d.num_index1 route e
route-IsOnNode str_hash string_index d route e = ground arith
route-IsOnNode str_hash (other_index_type n) d route e = absurd (cc)

node-route :
    (str_hash : List ℕ → ℕ) (t : IndexType) (d : Data) (node : ℕ)
    → IsOnNode str_hash t d node
    → (route : Route) × (route_of str_hash t d ≡ some route) × (route.node ≡ node)
unfolding route_of
node-route str_hash number1 d node h = node-number str_hash number1 d.num_index1 node h
node-route str_hash number2 d node h = node-number str_hash number2 d.num_index1 node h
node-route str_hash string_index d node h = (_, refl, sym h)
node-route str_hash (other_index_type n) d node h = absurd h

given_both : (a b : Bool) → (not a || not b) ≡ false → (a ≡ true) × (b ≡ true)
given_both a b h = ground arith

module _ (ops : OpNumbers) where
  lacks-HasIndex :
      (t : IndexType) (op : ℕ) (d : Data) → lacks_index ops t op d ≡ false → HasIndex ops t op d
  lacks-HasIndex number1 op d e = given d.num_index1 (ground arith)
  lacks-HasIndex number2 op d e = elim (Bool-cases (op == ops.op_get)) [
    | inl g ↦ inl ((==_iff op ops.op_get).0 g)
    | inr g ↦
        (let both = given_both (is_given d.num_index1) (is_given d.num_index2) (rw g at e) in
          let first = given d.num_index1 both.0 in
          let other = given d.num_index2 both.1 in inr (first.0, other.0, first.1, other.1))
  ]
  lacks-HasIndex string_index op d e = ground arith
  lacks-HasIndex (other_index_type n) op d e = tt

  index-lacks :
      (t : IndexType) (op : ℕ) (d : Data) → HasIndex ops t op d → lacks_index ops t op d ≡ false
  index-lacks number1 op d h = rw h.1 refl
  index-lacks number2 op d (inl e) = ground arith
  index-lacks number2 op d (inr h) = (let a = h.2 in let b = h.3 in rw (a, b) (ground arith))
  index-lacks string_index op d h = ground arith
  index-lacks (other_index_type n) op d h = refl

module _ (str_hash : List ℕ → ℕ) (ops : OpNumbers) (rules : Rules) (o : DataOp) (node : ℕ) where
  pub tested-IsLegal : IsTested str_hash ops rules o node → IsLegal str_hash ops rules o node
  tested-IsLegal l =
      let bit = permitted-bit l.rule.op_mask l.op l.permitted in
      record {
        op = l.op;
        value = l.value;
        key = key_of l.value;
        rule = l.rule;
        has_type = l.has_type;
        has_value = l.has_value;
        is_key = key_of-IsKey l.value;
        has_rule = l.has_rule;
        on_node =
            subst (IsOnNode str_hash l.rule.index_type l.value) l.on_node
              (route-IsOnNode str_hash l.rule.index_type l.value l.route l.has_route);
        is_bit = bit.0;
        permitted = bit.1;
        typed = matches-type l.value.data_type l.rule.data_type l.typed;
        indexed = lacks-HasIndex ops l.rule.index_type l.op l.value l.indexed;
        sized = l.sized;
      }

  pub legal-IsTested : IsLegal str_hash ops rules o node → IsTested str_hash ops rules o node
  legal-IsTested l =
      let r = node-route str_hash l.rule.index_type l.value node l.on_node in
      record {
        op = l.op;
        value = l.value;
        rule = l.rule;
        route = r.0;
        has_type = l.has_type;
        has_value = l.has_value;
        has_rule = ap rules (IsKey-key_of l.value l.key l.is_key) ∙ l.has_rule;
        has_route = r.1;
        on_node = r.2;
        permitted = bit-permitted l.rule.op_mask l.op l.is_bit l.permitted;
        typed = type-matches l.value.data_type l.rule.data_type l.typed;
        indexed = index-lacks ops l.rule.index_type l.op l.value l.indexed;
        sized = l.sized;
      }
