-- ===== src/Service/Perf/Examples.antt =====
-- Statistics that have been cleared.
use common_fw.Common.{arith}
use common_fw.Service.Perf.{cleared}
use common_fw.Service.Perf.Bounds.{AreOrdered}

cleared-AreOrdered : AreOrdered cleared
cleared-AreOrdered = ground arith
