-- ===== src/Uuid/Examples.antt =====
-- Runs of the generator, and its theorems there.
use common_fw.Common.{◌≡◌, refl, [], ◌∷◌}
use common_fw.Uuid.{gen_id, Steps}
use common_fw.Uuid.Distinct.{Steps-issue_zero}

gen_id-wraps : gen_id 0xffffffff ≡ 1
unfolding gen_id
gen_id-wraps = refl

Steps-issue_zero_example :
    Steps
      (record { id = 0xfffffffe; pending = []; issued = 5 ∷ [] })
      (record { id = 0; pending = []; issued = 0 ∷ 0xffffffff ∷ 5 ∷ [] })
Steps-issue_zero_example = Steps-issue_zero [] (5 ∷ [])
