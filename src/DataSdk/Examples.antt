-- ===== src/DataSdk/Examples.antt =====
-- Rules, operations and sessions, and the theorems at them.
use common_fw.Common.{
  ℕ, ◌≡◌, ◌⊎◌, ◌↔◌, ◌≤◌, refl, true, false, Option, none, some, [], ◌∷◌, negsuc, length, All, arith,
}
use common_fw.DataSdk.{
  Data, int32, number1, put_value, get_like, puts, put_fails, gets, get_fails, with_buffer,
  int32_value, invalid_data_type,
}
use common_fw.DataSdk.Values.{IsOfType, get_like-put_value}
use common_fw.DataSdk.Rules.{
  Rule, OpNumbers, Rules, DataOp, Route, check_ops, check_loop, check_op, check_rule, route_of,
  accepted,
}
use common_fw.DataSdk.Legal.{IsLegal}
use common_fw.DataSdk.Accepting.{check_ops-AllLegal}
use common_fw.DataSdk.Sessions.{
  Sdk, Session, Step, Steps, new_sdk, begin_session, receive, time_out, timed_out, returns,
  data_ops,
}
use common_fw.DataSdk.Sessions.Notices.{Steps-once, Steps-silent}

abbrev coins : Data
coins = record {
  data_id = 8;
  version = 1;
  num_index1 = some 77;
  num_index2 = none;
  str_index = [];
  data_type = some int32;
  data_buffer = 0 ∷ 0 ∷ 0 ∷ 5 ∷ [];
}

get_like-put_value_example :
    (IsOfType int32 coins int32
      × ((d' : Data) × (put_value int32 (int32_value (negsuc 4)) (some coins) ≡ puts d')
          × (get_like int32 (int32_value (negsuc 4)) (some d') ≡ gets (int32_value (negsuc 4)))
          × (d' ≡ with_buffer d'.data_buffer coins)))
    ⊎ (¬ IsOfType int32 coins int32
        × (put_value int32 (int32_value (negsuc 4)) (some coins) ≡ put_fails invalid_data_type)
        × (get_like int32 (int32_value (negsuc 4)) (some coins) ≡ get_fails invalid_data_type))
get_like-put_value_example = get_like-put_value int32 (int32_value (negsuc 4)) coins (omega arith)

-- The operations 2 and 4 are allowed on the data 8.
abbrev rule : Rule
rule = record {
  data_id = 8;
  index_type = number1;
  index_number2 = 0;
  data_type = int32;
  op_mask = 20;
}

abbrev numbers : OpNumbers
numbers = record { op_get = 1; op_add = 2; op_sub = 3; op_del = 5 }

abbrev rules : Rules
rules k = some rule

abbrev add_coins : DataOp
add_coins = record { op_type = some 2; value = some coins; index_type = none }

check_ops-AllLegal_example :
    ((last : Option Route) × ((check_ops (λ b. 0) numbers rules (add_coins ∷ [])).result
        ≡ accepted last))
    ↔ ((node : ℕ) × All (λ o. IsLegal (λ b. 0) numbers rules o node) (add_coins ∷ []))
check_ops-AllLegal_example = check_ops-AllLegal (λ b. 0) numbers rules (add_coins ∷ [])

abbrev session : Session
session = record { is_sync = true }

abbrev running : Sdk
running = begin_session 3 session new_sdk

abbrev begun : Steps new_sdk running
begun = Steps.then_step new_sdk (Step.begins new_sdk 3 session refl) (Steps.done running)

Steps-once_example :
    (length (running.notices 3) ≤ 1)
    × ((s : Session)
        → running.smap 3 ≡ some s
        → (running.notices 3 ≡ [])
          × Step running (time_out 3 running)
          × ((time_out 3 running).notices 3 ≡ timed_out ∷ []))
Steps-once_example = Steps-once running begun 3

Steps-silent_example : (receive 3 none running).notices 3 ≡ []
unfolding begin_session
Steps-silent_example =
    Steps-silent running (receive 3 none running) 3 session none begun refl (λ r e. absurd (cc))
      (Steps.done _)

-- StartDataOps returns nil for a request that cannot be encoded.
start_silently :
    (data_ops false
      (record { body_ok = true; request_ok = false; sent = true })
      3
      (λ b. 0)
      numbers
      rules
      true
      (add_coins ∷ [])
      new_sdk).called
    ≡ returns none
unfolding data_ops check_ops check_loop check_op check_rule route_of
start_silently = refl
