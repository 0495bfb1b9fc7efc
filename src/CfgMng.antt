-- ===== src/CfgMng.antt =====
-- component/cfg/cfg.go: the manager of configurations.
pub mod Manager
pub mod Buffers
pub mod Forgetting
mod Examples
use common_fw.Common.{
  ℕ, ◌+◌, ◌%◌, ℤ, pos, negsuc, Bool, true, false, not, ◌||◌, Option, none, some, List, [], ◌∷◌,
  ◌++◌, ◌==◌, if◌then◌else◌, exists, Entry, Assoc, lookup, assign,
}

-- A message, a text and an error are numbers: they are stored, compared and handed on.
abbrev pub Message : Type 0
Message = ℕ

abbrev pub Text : Type 0
Text = ℕ

-- A configuration; `has_prev` and `has_post` say which callbacks it has. The two buffers have been
-- allocated.
pub record Cfg : Type 0 where
  pub reloadable : Bool
  pub path : Text
  pub md5 : Option ℕ
  pub data0 : Message
  pub data1 : Message
  pub curr_idx : ℕ
  pub timestamp : ℕ
  pub has_prev : Bool
  pub has_post : Bool

-- What the code meets at a call: the file, UnmarshalText (the buffer that it leaves, and whether it
-- succeeds), the sum of a text, the callbacks, which get a buffer, the file's writing, the clock.
pub record Env : Type 0 where
  pub read : Text → Option Text
  pub unmarshal : Text → Message → Message × Bool
  pub sum : Text → ℕ
  pub prev : Message → ℤ × Option ℕ
  pub post : Message → ℤ × Option ℕ
  pub write : Text → Text → Bool
  pub now : ℕ

pub data LoadError : Type 0 where
  read_failed unmarshal_failed unchanged write_failed : LoadError
  nil_alloc already_loaded already_exists alloc_failed no_cfg not_reloadable : LoadError
  callback_error : ℕ → LoadError

-- `e == unchange_error`
abbrev pub is_unchanged : LoadError → Bool
is_unchanged unchanged = true
is_unchanged _ = false

abbrev pub buffer_at : ℕ → Cfg → Message
buffer_at i c = if i == 0 then c.data0 else c.data1

unfoldable pub curr_buffer : Cfg → Message
curr_buffer c = buffer_at c.curr_idx c

abbrev pub next_idx : ℕ → ℕ
next_idx i = (i + 1) % 2

unfoldable pub next_buffer : Cfg → Message
next_buffer c = buffer_at (next_idx c.curr_idx) c

-- The next buffer is overwritten in place.
unfoldable pub with_next : Message → Cfg → Cfg
with_next m c = record {
  reloadable = c.reloadable;
  path = c.path;
  md5 = c.md5;
  data0 = if next_idx c.curr_idx == 0 then m else c.data0;
  data1 = if next_idx c.curr_idx == 0 then c.data1 else m;
  curr_idx = c.curr_idx;
  timestamp = c.timestamp;
  has_prev = c.has_prev;
  has_post = c.has_post;
}

unfoldable pub with_md5 : ℕ → Cfg → Cfg
with_md5 s c = record {
  reloadable = c.reloadable;
  path = c.path;
  md5 = some s;
  data0 = c.data0;
  data1 = c.data1;
  curr_idx = c.curr_idx;
  timestamp = c.timestamp;
  has_prev = c.has_prev;
  has_post = c.has_post;
}

-- The time is set, and the buffers are switched.
unfoldable pub switch_buffer : ℕ → Cfg → Cfg
switch_buffer now c = record {
  reloadable = c.reloadable;
  path = c.path;
  md5 = c.md5;
  data0 = c.data0;
  data1 = c.data1;
  curr_idx = next_idx c.curr_idx;
  timestamp = now;
  has_prev = c.has_prev;
  has_post = c.has_post;
}

-- A result, an error, `none` for nil, and the configuration that is left.
pub record Loaded : Type 0 where
  pub res : ℤ
  pub error : Option LoadError
  pub cfg : Cfg

abbrev pub minus_one : ℤ
minus_one = negsuc 0

-- `bytes.Equal`: a nil sum is none of a text.
abbrev pub same_sum : Option ℕ → ℕ → Bool
same_sum none s = false
same_sum (some r) s = r == s

-- A callback's answer, where there is a callback.
abbrev pub answer : Bool → ℤ × Option ℕ → ℤ × Option ℕ
answer true a = a
answer false a = (pos 0, none)

-- What loadimpl sends, and the configuration that it leaves.
pub record Read : Type 0 where
  pub failure : Option LoadError
  pub after : Cfg

module _ (env : Env) where
  abbrev pub read_sum : Bool → ℕ → Cfg → Read
  read_sum true s c = record { failure = some unchanged; after = c }
  read_sum false s c = record { failure = none; after = with_md5 s c }

  abbrev pub read_message : Bool → Text → Cfg → Read
  read_message false text c = record { failure = some unmarshal_failed; after = c }
  read_message true text c = read_sum (same_sum c.md5 (env.sum text)) (env.sum text) c

  abbrev pub read_text : Option Text → Cfg → Read
  read_text none c = record { failure = some read_failed; after = c }
  read_text (some text) c =
      read_message (env.unmarshal text (next_buffer c)).1 text
        (with_next (env.unmarshal text (next_buffer c)).0 c)

  -- `env.read` joins the root and the path.
  unfoldable pub load_impl : Cfg → Read
  load_impl c = read_text (env.read c.path) c

  -- An error of Post is dropped.
  abbrev pub after_post : ℤ × Option ℕ → Cfg → Loaded
  after_post (res, some e) c = record { res = res; error = none; cfg = c }
  after_post (res, none) c = record { res = pos 0; error = none; cfg = switch_buffer env.now c }

  abbrev pub after_read : Option LoadError → Cfg → Loaded
  after_read none c = after_post (answer c.has_post (env.post (next_buffer c))) c
  after_read (some e) c = record {
    res = if is_unchanged e then pos 0 else minus_one;
    error = if is_unchanged e then none else some e;
    cfg = c;
  }

  -- An error of Prev is dropped.
  abbrev pub after_prev : ℤ × Option ℕ → Cfg → Loaded
  after_prev (res, some e) c = record { res = res; error = none; cfg = c }
  after_prev (res, none) c = after_read (load_impl c).failure (load_impl c).after

  unfoldable pub load : Bool → Cfg → Loaded
  load init_load c =
      if c.reloadable || init_load
      then after_prev (answer c.has_prev (env.prev (curr_buffer c))) c
      else record { res = pos 0; error = none; cfg = c }

  -- ReloadAndSave
  abbrev pub save_text : Bool → Cfg → Loaded
  save_text false c = record { res = pos 0; error = some write_failed; cfg = c }
  save_text true c = record { res = pos 0; error = none; cfg = switch_buffer env.now c }

  abbrev pub post_text : ℤ × Option ℕ → Text → Cfg → Loaded
  post_text (res, some e) text c = record { res = pos 0; error = some (callback_error e); cfg = c }
  post_text (res, none) text c = save_text (env.write c.path text) c

  abbrev pub sum_text : Bool → Text → Cfg → Loaded
  sum_text true text c = record { res = pos 0; error = none; cfg = c }
  sum_text false text c =
      post_text (answer c.has_post (env.post (next_buffer c))) text (with_md5 (env.sum text) c)

  abbrev pub accept_text : Bool → Text → Cfg → Loaded
  accept_text false text c = record { res = pos 0; error = some unmarshal_failed; cfg = c }
  accept_text true text c = sum_text (same_sum c.md5 (env.sum text)) text c

  unfoldable pub reload_and_save : Text → Cfg → Loaded
  reload_and_save text c =
      accept_text (env.unmarshal text (next_buffer c)).1 text
        (with_next (env.unmarshal text (next_buffer c)).0 c)
