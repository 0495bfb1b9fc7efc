-- ===== src/CfgMng/Manager.antt =====
-- component/cfg/cfg.go: the manager's operations on all configurations.
use common_fw.Common.{
  ℕ, ℤ, pos, Bool, true, false, not, ◌||◌, Option, none, some, [], ◌∷◌, if◌then◌else◌, exists,
  Entry, Assoc, lookup, assign,
}
use common_fw.CfgMng.{
  Message, Text, Cfg, Env, LoadError, already_loaded, already_exists, alloc_failed, nil_alloc,
  no_cfg, not_reloadable, Loaded, minus_one, curr_buffer, load, reload_and_save,
}

pub record CfgMng : Type 0 where
  pub cfgs : Assoc Cfg
  pub loaded : Bool

-- A result, an error, `none` for nil, and the manager that is left.
pub record Managed : Type 0 where
  pub res : ℤ
  pub error : Option LoadError
  pub manager : CfgMng

abbrev pub fails_with : LoadError → CfgMng → Managed
fails_with e cm = record { res = minus_one; error = some e; manager = cm }

-- What is registered: nil, or an alloc function with its two messages, which may be nil.
pub data Alloc : Type 0 where
  no_alloc : Alloc
  allocs : Option Message → Option Message → Alloc

abbrev pub add_cfg : ℕ → Cfg → CfgMng → Managed
add_cfg name c cm = record {
  res = pos 0;
  error = none;
  manager = record { cfgs = assign cm.cfgs name c; loaded = cm.loaded };
}

abbrev pub new_cfg : Text → Bool → Bool → Bool → Message → Message → Cfg
new_cfg path reloadable has_prev has_post m n = record {
  reloadable = reloadable;
  path = path;
  md5 = none;
  data0 = m;
  data1 = n;
  curr_idx = 0;
  timestamp = 0;
  has_prev = has_prev;
  has_post = has_post;
}

abbrev pub register_with :
    ℕ → Text → Bool → Bool → Bool → Option Message → Option Message → CfgMng → Managed
register_with name path reloadable has_prev has_post (some m) (some n) cm =
    add_cfg name (new_cfg path reloadable has_prev has_post m n) cm
register_with name path reloadable has_prev has_post _ _ cm = fails_with alloc_failed cm

unfoldable pub register : ℕ → Text → Bool → Alloc → Bool → Bool → CfgMng → Managed
register name path reloadable no_alloc has_prev has_post cm = fails_with nil_alloc cm
register name path reloadable (allocs m n) has_prev has_post cm =
    if cm.loaded
    then fails_with already_loaded cm
    else (if exists (lookup cm.cfgs name)
        then fails_with already_exists cm
        else register_with name path reloadable has_prev has_post m n cm)

-- The configurations that a loop has come to, and those behind.
pub record LoopEnd : Type 0 where
  pub res : ℤ
  pub error : Option LoadError
  pub cfgs : Assoc Cfg

abbrev pub entry_with : Entry Cfg → Cfg → Entry Cfg
entry_with e c = record { key = e.key; value = c }

module _ (envs : ℕ → Env) where
  abbrev pub load_rest : Entry Cfg → Assoc Cfg → LoopEnd → Loaded → LoopEnd
  load_rest e es rest l = elim l.error [
    | some f ↦ record { res = l.res; error = some f; cfgs = entry_with e l.cfg ∷ es }
    | none ↦ record { res = rest.res; error = rest.error; cfgs = entry_with e l.cfg ∷ rest.cfgs }
  ]

  -- The loop over the map, in the order of the range; it ends at the first error.
  unfoldable pub load_all : Bool → Assoc Cfg → LoopEnd
  load_all init_load [] = record { res = pos 0; error = none; cfgs = [] }
  load_all init_load (e ∷ es) =
      let rest = load_all init_load es in load_rest e es rest (load (envs e.key) init_load e.value)

  abbrev pub all_loaded : Bool → LoopEnd → Managed
  all_loaded was l = record {
    res = l.res;
    error = l.error;
    manager = record { cfgs = l.cfgs; loaded = was || not (exists l.error) };
  }

  unfoldable pub init_load_all : CfgMng → Managed
  init_load_all cm =
      if cm.loaded then fails_with already_loaded cm else all_loaded false (load_all true cm.cfgs)

  unfoldable pub reload_all : CfgMng → Managed
  reload_all cm =
      let l = load_all false cm.cfgs in
      record {
        res = l.res;
        error = l.error;
        manager = record { cfgs = l.cfgs; loaded = cm.loaded };
      }

  abbrev pub put_loaded : ℕ → CfgMng → Loaded → Managed
  put_loaded name cm l = record {
    res = l.res;
    error = l.error;
    manager = record { cfgs = assign cm.cfgs name l.cfg; loaded = cm.loaded };
  }

  unfoldable pub reload : ℕ → CfgMng → Managed
  reload name cm = elim (lookup cm.cfgs name) [
    | none ↦ fails_with no_cfg cm
    | some c ↦
        if c.reloadable
        then put_loaded name cm (load (envs name) false c)
        else fails_with not_reloadable cm
  ]

  -- ReloadAndSave of the manager; its result has no number.
  unfoldable pub save : ℕ → Text → CfgMng → Managed
  save name text cm = elim (lookup cm.cfgs name) [
    | none ↦ fails_with no_cfg cm
    | some c ↦ put_loaded name cm (reload_and_save (envs name) text c)
  ]

unfoldable pub get : CfgMng → ℕ → Option Message
get cm name = elim (lookup cm.cfgs name) [ none ↦ none | some c ↦ some (curr_buffer c) ]
