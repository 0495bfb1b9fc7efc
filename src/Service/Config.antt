-- ===== src/Service/Config.antt =====
-- framework/base/service.go: OnNewCfg, with the conversions of utils/server_id.go.
pub mod Accepting
mod Examples
use common_fw.Common.{
  ℕ, ℤ, pos, negsuc, ◌+◌, ◌-◌, ◌*◌, ◌%◌, ◌^◌, Bool, true, false, not, Option, none, some, List, [],
  ◌∷◌, ◌==◌, if◌then◌else◌, Map, put, bit_or,
}

-- A text is a number here: it is compared, or taken apart by strings.Split and strconv.Atoi.
abbrev pub Text : Type 0
Text = ℕ

pub record Texts : Type 0 where
  -- strings.Split(s, ".")
  pub split : Text → List Text
  pub atoi : Text → Option ℤ

-- The conversion `uint32(i)`.
abbrev pub uint32_of : ℤ → ℕ
uint32_of (pos n) = n % 2 ^ 32
uint32_of (negsuc n) = 2 ^ 32 - 1 - n % 2 ^ 32

pub data CfgError : Type 0 where
  empty_entries invalid_id inconsistent_type duplicate_id unknown_type : CfgError

-- The server type of the entries, or an error.
pub data CheckedEntries : Type 0 where
  consistent : ℕ → CheckedEntries
  rejected : CfgError → CheckedEntries

module _ (texts : Texts) where
  abbrev pub two_fields : List Text → Option (ℕ × ℕ)
  two_fields (a ∷ b ∷ []) = elim (texts.atoi a) [
    | none ↦ none
    | some i ↦ elim (texts.atoi b) [ none ↦ none | some j ↦ some (uint32_of i, uint32_of j) ]
  ]
  two_fields _ = none

  unfoldable pub convert_server_id_string_to_fields : Text → Option (ℕ × ℕ)
  convert_server_id_string_to_fields s = two_fields (texts.split s)

  -- `f1<<16 | f2`
  unfoldable pub convert_server_id_string_to_number : Text → Option ℕ
  convert_server_id_string_to_number s = elim (two_fields (texts.split s)) [
    | none ↦ none
    | some f ↦ some (bit_or (f.0 * 2 ^ 16 % 2 ^ 32) f.1)
  ]

  -- The loop over the entries behind the first; idMap has only the first entry's id.
  unfoldable pub check_rest : ℕ → Text → List Text → CheckedEntries
  check_rest svr_type first [] = consistent svr_type
  check_rest svr_type first (id ∷ ids) =
      let rest = check_rest svr_type first ids in
      elim (convert_server_id_string_to_fields id) [
        | none ↦ rejected invalid_id
        | some f ↦
            if not (f.0 == svr_type)
            then rejected inconsistent_type
            else (if id == first then rejected duplicate_id else rest)
      ]

  unfoldable pub check_entries : List Text → CheckedEntries
  check_entries [] = rejected empty_entries
  check_entries (first ∷ ids) = elim (convert_server_id_string_to_fields first) [
    | none ↦ rejected invalid_id
    | some f ↦ check_rest f.0 first ids
  ]

-- The message by its type: *config.ServerCfg with HttpAddr and Id, *config.ClientCfg with the
-- entries' ids, or another.
pub data Cfg : Type 0 where
  server_cfg : Text → Text → Cfg
  client_cfg : List Text → Cfg
  other_cfg : Cfg

-- The fields of BaseService that OnNewCfg uses; `cp` says which client components there are, and
-- `reloaded` which ones have been told to reload.
pub record ServiceCfg : Type 0 where
  pub http_url : Text
  pub service_id : ℕ
  pub cli_cfg_map : Map ℕ
  pub cp : ℕ → Bool
  pub reloaded : List ℕ

pub data Loaded : Type 0 where
  loaded : ServiceCfg → Loaded
  failed : CfgError → Loaded
  -- `panic(err)` on a server id that is invalid, when HttpUrl has been set.
  panics : Loaded

module _ (texts : Texts) where
  abbrev pub with_client : Text → CheckedEntries → ServiceCfg → Loaded
  with_client cfg_name (rejected e) s = failed e
  with_client cfg_name (consistent svr_type) s = loaded (record s {
    cli_cfg_map = put s.cli_cfg_map cfg_name svr_type;
    reloaded = if s.cp svr_type then svr_type ∷ s.reloaded else s.reloaded;
  })

  unfoldable pub on_new_cfg : Text → Cfg → ServiceCfg → Loaded
  on_new_cfg cfg_name (server_cfg http_addr id) s =
      elim (convert_server_id_string_to_number texts id) [
        | none ↦ panics
        | some n ↦ loaded (record s { http_url = http_addr; service_id = n })
      ]
  on_new_cfg cfg_name (client_cfg ids) s = with_client cfg_name (check_entries texts ids) s
  on_new_cfg cfg_name other_cfg s = failed unknown_type
