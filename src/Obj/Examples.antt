-- ===== src/Obj/Examples.antt =====
-- Runs of the manager, and its theorems there.
use common_fw.Common.{◌≡◌, refl, true, false, some, [], ◌∷◌, ok, arith}
use common_fw.Uuid.{gen_id}
use common_fw.Obj.{new_mng, init, is_full, create, init_call, create_call, del_call, call, calls}
use common_fw.Obj.Managing.{OnOk, calls-IsSound}
use common_fw.Obj.Table.{IsSound}

-- Room for one object: the second Create is refused.
calls-new_mng :
    calls
      (init_call 1 false (some 7) true
        ∷ create_call (record { id = 0 }) true
        ∷ create_call (record { id = 0 }) true
        ∷ [])
      new_mng
    ≡ ok (record {
      cap = 1;
      inited = true;
      id_gen = some 8;
      ob_map = (8, some (record { id = 8 })) ∷ [];
      has_creator = true;
    })
unfolding calls call init create is_full gen_id
calls-new_mng = refl

calls-IsSound_example : OnOk IsSound (
    calls
      (init_call 1 false (some 7) true ∷ create_call (record { id = 0 }) true ∷ del_call 8 ∷ [])
      new_mng)
calls-IsSound_example =
    calls-IsSound
      (init_call 1 false (some 7) true ∷ create_call (record { id = 0 }) true ∷ del_call 8 ∷ [])
      new_mng (record { entries = tt; keyed = tt; capacity = λ h. omega arith })
