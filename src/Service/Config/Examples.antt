-- ===== src/Service/Config/Examples.antt =====
-- A client configuration with an id that stands twice.
use common_fw.Common.{pos, false, some, [], ◌∷◌, empty_map}
use common_fw.Service.Config.{Texts, ServiceCfg}

-- The text `n` reads "3.n".
abbrev numbered : Texts
numbered = record { split = λ s. 3 ∷ s ∷ []; atoi = λ s. some (pos s) }

abbrev service : ServiceCfg
service = record {
  http_url = 0;
  service_id = 0;
  cli_cfg_map = empty_map;
  cp = λ t. false;
  reloaded = [];
}
