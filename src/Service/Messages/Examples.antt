-- ===== src/Service/Messages/Examples.antt =====
-- A map with the handler 5 for the message 3, and the uniform handler 9.
use common_fw.Common.{◌≡◌, refl, some, empty_map, put}
use common_fw.Service.Messages.{MsgMap, reg}

abbrev with_uniform : MsgMap
with_uniform = put empty_map 0 (some 9)

abbrev with_handler : MsgMap
with_handler = put with_uniform 3 (some 5)

reg-with_handler : reg 3 (some 5) with_uniform ≡ some with_handler
unfolding reg
reg-with_handler = refl
