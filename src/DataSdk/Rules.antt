-- ===== src/DataSdk/Rules.antt =====
-- component/datasdk: Rule, RegRules, CheckOps and NewData.

use common_fw.Common.{
  ℕ, ◌/◌, ◌%◌, ◌^◌, Bool, true, false, not, ◌&&◌, ◌||◌, Option, none, some, List, [], ◌∷◌, ltb,
  ◌==◌, if◌then◌else◌, length, put_uint64, Outcome, ok, panic,
}
use common_fw.Utils.Hash.{tm_hash_num, tm_hash_str}
use common_fw.DataSdk.{
  Data, DataType, IndexType, int32, uint32_type, int64, uint64_type, buffer, other_data_type,
  number1, number2, string_index, other_index_type, same_type,
}

pub record Rule : Type 0 where
  pub data_id : ℕ
  pub index_type : IndexType
  pub index_number2 : ℕ
  pub data_type : DataType
  pub op_mask : ℕ

-- The numbers of interior.OpType that the code names.
pub record OpNumbers : Type 0 where
  pub op_get : ℕ
  pub op_add : ℕ
  pub op_sub : ℕ
  pub op_del : ℕ

-- The texts "id" and "id.number2".
pub data Key : Type 0 where
  plain : ℕ → Key
  second : ℕ → ℕ → Key

abbrev pub same_key : Key → Key → Bool
same_key (plain a) (plain b) = a == b
same_key (second a b) (second c d) = (a == c) && (b == d)
same_key _ _ = false

abbrev pub Rules : Type 0
Rules = Key → Option Rule

abbrev pub put_rule : Rules → Key → Rule → Rules
put_rule m k r j = if same_key j k then some r else m j

pub data SdkError : Type 0 where
  invalid_param invalid_op_mask invalid_data_id invalid_action unmatched_data_type : SdkError
  invalid_index invalid_32int invalid_64int invalid_buffer : SdkError

-- `mask & (1 << op) != 0` on uint64: a shift by 64 or more gives 0.
abbrev pub has_op : ℕ → ℕ → Bool
has_op mask op = ltb op 64 && (mask / 2 ^ op % 2 == 1)

module _ (ops : OpNumbers) where
  abbrev pub is_bad_rule : Rule → Bool
  is_bad_rule r =
      same_type r.data_type buffer && (has_op r.op_mask ops.op_add || has_op r.op_mask ops.op_sub)

  abbrev pub any_bad : List Rule → Bool
  any_bad [] = false
  any_bad (r ∷ rs) = is_bad_rule r || any_bad rs

  abbrev pub add_rule : Rule → Rules → Rules
  add_rule r m =
      let m' =
        if r.index_number2 == 0 then m else put_rule m (second r.data_id r.index_number2) r in
      put_rule m' (plain r.data_id) r

  abbrev pub add_rules : List Rule → Rules → Rules
  add_rules [] m = m
  add_rules (r ∷ rs) m = add_rules rs (add_rule r m)

  -- RegRules of an SDK that is initialized; `none` is SDKERR_INVALID_OPMASK.
  unfoldable pub reg_rules : List Rule → Rules → Option Rules
  reg_rules rs m = if any_bad rs then none else some (add_rules rs m)

-- An operation: a nil OpType or Data is `none`; CheckOps sets the index type.
pub record DataOp : Type 0 where
  pub op_type : Option ℕ
  pub value : Option Data
  pub index_type : Option IndexType

abbrev pub key_of : Data → Key
key_of d = elim d.num_index2 [ none ↦ plain d.data_id | some j ↦ second d.data_id j ]

-- The route key, and the node that it names.
pub record Route : Type 0 where
  pub index_type : IndexType
  pub key : List ℕ
  pub node : ℕ

-- dao.TableNum
abbrev pub table_num : ℕ
table_num = 512

-- The answer of the tests.
pub data Check : Type 0 where
  passes : Check
  refuses : SdkError → Check
  crashes : Check

abbrev pub is_given {ℓ} : {A : Type ℓ} → Option A → Bool
is_given none = false
is_given (some a) = true

abbrev pub type_matches : Option DataType → DataType → Bool
type_matches none t = false
type_matches (some s) t = same_type t s

-- A nil data type has been refused before.
abbrev pub check_buffer : Option DataType → ℕ → Check
check_buffer none n = crashes
check_buffer (some int32) n = if n == 4 then passes else refuses invalid_32int
check_buffer (some uint32_type) n = if n == 4 then passes else refuses invalid_32int
check_buffer (some int64) n = if n == 8 then passes else refuses invalid_64int
check_buffer (some uint64_type) n = if n == 8 then passes else refuses invalid_64int
check_buffer (some buffer) n = if n == 0 then refuses invalid_buffer else passes
check_buffer (some (other_data_type k)) n = crashes

module _ (ops : OpNumbers) where
  -- The tests of the index: whether one of them fails.
  abbrev pub lacks_index : IndexType → ℕ → Data → Bool
  lacks_index number1 op d = not (is_given d.num_index1)
  lacks_index number2 op d =
      not (op == ops.op_get) && (not (is_given d.num_index1) || not (is_given d.num_index2))
  lacks_index string_index op d = length d.str_index == 0
  lacks_index (other_index_type n) op d = false

  unfoldable pub check_rule : Rule → ℕ → Data → Check
  check_rule r op d =
      if not (has_op r.op_mask op)
      then refuses invalid_action
      else (if not (type_matches d.data_type r.data_type)
          then refuses unmatched_data_type
          else (if lacks_index r.index_type op d
              then refuses invalid_index
              else (if (op == ops.op_get) || (op == ops.op_del)
                  then passes
                  else check_buffer d.data_type (length d.data_buffer))))

-- One operation: refused, a panic, or let through with its route.
pub data OpChecked : Type 0 where
  let_through : Route → OpChecked
  op_refused : SdkError → OpChecked
  op_crashes : OpChecked

abbrev pub after_rule : Check → Route → OpChecked
after_rule passes route = let_through route
after_rule (refuses e) route = op_refused e
after_rule crashes route = op_crashes

-- The node of the first operation, `none` when this is the first.
abbrev pub same_node : Option ℕ → ℕ → Bool
same_node none n = true
same_node (some m) n = m == n

-- CheckOps' results: the last operation's route, where there is an operation, or an error.
pub data CheckedOps : Type 0 where
  accepted : Option Route → CheckedOps
  refused : SdkError → CheckedOps
  panicked : CheckedOps

-- The results, and the operations as they are left.
pub record Checked : Type 0 where
  pub result : CheckedOps
  pub left_ops : List DataOp

abbrev pub first_node : Option ℕ → Route → ℕ
first_node none route = route.node
first_node (some n) route = n

module _ (str_hash : List ℕ → ℕ) where
  -- A nil NumIndex1 is dereferenced.
  abbrev pub route_number : IndexType → Option ℕ → Option Route
  route_number t none = none
  route_number t (some i) =
      some
        (record { index_type = t; key = put_uint64 i; node = tm_hash_num table_num (put_uint64 i) })

  -- `none` is a panic.
  unfoldable pub route_of : IndexType → Data → Option Route
  route_of number1 d = route_number number1 d.num_index1
  route_of number2 d = route_number number2 d.num_index1
  route_of string_index d = some (record {
    index_type = string_index;
    key = d.str_index;
    node = tm_hash_str str_hash table_num d.str_index;
  })
  route_of (other_index_type n) d = none

  module _ (ops : OpNumbers) where
    abbrev pub by_route : Option ℕ → Rule → ℕ → Data → Option Route → OpChecked
    by_route first r op d none = op_crashes
    by_route first r op d (some route) =
        if same_node first route.node
        then after_rule (check_rule ops r op d) route
        else op_refused invalid_param

    abbrev pub by_rule : Option ℕ → ℕ → Data → Option Rule → OpChecked
    by_rule first op d none = op_refused invalid_data_id
    by_rule first op d (some r) = by_route first r op d (route_of r.index_type d)

    module _ (rules : Rules) where
      abbrev pub by_parts : Option ℕ → Option ℕ → Option Data → OpChecked
      by_parts first none d = op_refused invalid_param
      by_parts first (some op) none = op_refused invalid_param
      by_parts first (some op) (some d) = by_rule first op d (rules (key_of d))

      unfoldable pub check_op : Option ℕ → DataOp → OpChecked
      check_op first o = by_parts first o.op_type o.value

      abbrev pub found_rule : Option ℕ → Option Data → Option Rule
      found_rule (some op) (some d) = rules (key_of d)
      found_rule _ _ = none

      -- `do.IndexType = &rule.IndexType`, where a rule is found
      abbrev pub mark : DataOp → DataOp
      mark o = elim (found_rule o.op_type o.value) [
        | none ↦ o
        | some r ↦ record { op_type = o.op_type; value = o.value; index_type = some r.index_type }
      ]

      abbrev pub then_rest : DataOp → Checked → Checked
      then_rest o k = record { result = k.result; left_ops = mark o ∷ k.left_ops }

      abbrev pub stops : DataOp → List DataOp → CheckedOps → Checked
      stops o os c = record { result = c; left_ops = mark o ∷ os }

      abbrev pub continue_with : (Route → Checked) → DataOp → List DataOp → OpChecked → Checked
      continue_with rest o os (let_through route) = then_rest o (rest route)
      continue_with rest o os (op_refused e) = stops o os (refused e)
      continue_with rest o os op_crashes = stops o os panicked

      unfoldable pub check_loop : Option ℕ → Option Route → List DataOp → Checked
      check_loop first last [] = record { result = accepted last; left_ops = [] }
      check_loop first last (o ∷ os) =
          continue_with (λ route. check_loop (some (first_node first route)) (some route) os) o os
            (check_op first o)

      unfoldable pub check_ops : List DataOp → Checked
      check_ops os = check_loop none none os

-- NewData with its number index and its string index; a panic where they do not suit the rule.
module _ (ops : OpNumbers) where
  abbrev pub new_key : ℕ → List ℕ → Key
  new_key id (i ∷ j ∷ []) = second id j
  new_key id _ = plain id

  abbrev pub new_of : ℕ → ℕ → Rule → Option ℕ → Option ℕ → List ℕ → Outcome Data
  new_of id ver r i j s = ok (record {
    data_id = id;
    version = ver;
    num_index1 = i;
    num_index2 = j;
    str_index = s;
    data_type = some r.data_type;
    data_buffer = [];
  })

  -- One number is enough for a rule of two when the rule allows to get.
  abbrev pub new_by_numbers : ℕ → ℕ → Rule → List ℕ → Outcome Data
  new_by_numbers id ver r [] = panic
  new_by_numbers id ver r (i ∷ []) =
      if has_op r.op_mask ops.op_get then new_of id ver r (some i) none [] else panic
  new_by_numbers id ver r (i ∷ j ∷ _) = new_of id ver r (some i) (some j) []

  abbrev pub new_by_index : IndexType → ℕ → ℕ → Rule → List ℕ → List ℕ → Outcome Data
  new_by_index number1 id ver r [] s = panic
  new_by_index number1 id ver r (i ∷ _) s = new_of id ver r (some i) none []
  new_by_index number2 id ver r is s = new_by_numbers id ver r is
  new_by_index string_index id ver r is [] = panic
  new_by_index string_index id ver r is (b ∷ s) = new_of id ver r none none (b ∷ s)
  new_by_index (other_index_type n) id ver r is s = new_of id ver r none none []

  unfoldable pub new_data : Rules → ℕ → ℕ → List ℕ → List ℕ → Outcome Data
  new_data rules id ver num_idx str_idx = elim (rules (new_key id num_idx)) [
    | none ↦ panic
    | some r ↦ new_by_index r.index_type id ver r num_idx str_idx
  ]
