-- ===== src/CfgMng/Examples.antt =====
-- A configuration whose text is refused, and the theorems at it.
use common_fw.Common.{◌≡◌, refl, Bool, true, false, none, some, pos, negsuc, arith}
use common_fw.CfgMng.{Cfg, Env, Text, curr_buffer, load, reload_and_save, with_next, callback_error}
use common_fw.CfgMng.Buffers.{KeepsOrAccepts, load-KeepsOrAccepts}
use common_fw.CfgMng.Forgetting.{reload_and_save-forgets}

-- The file has the text 5; Post refuses with the error 9.
abbrev refusing : Env
refusing = record {
  read = λ path. some 5;
  unmarshal = λ text m. (text, true);
  sum = λ text. text;
  prev = λ m. (pos 0, none);
  post = λ m. (negsuc 0, some 9);
  write = λ path text. true;
  now = 7;
}

abbrev accepting : Env
accepting = record {
  read = λ path. some 5;
  unmarshal = λ text m. (text, true);
  sum = λ text. text;
  prev = λ m. (pos 0, none);
  post = λ m. (pos 0, none);
  write = λ path text. true;
  now = 8;
}

abbrev cfg : Cfg
cfg = record {
  reloadable = true;
  path = 1;
  md5 = some 3;
  data0 = 3;
  data1 = 0;
  curr_idx = 0;
  timestamp = 6;
  has_prev = false;
  has_post = true;
}

load-KeepsOrAccepts_example :
    ((init_load : Bool) → KeepsOrAccepts refusing cfg (some 5) (load refusing init_load cfg).cfg)
    × ((text : Text)
        → KeepsOrAccepts refusing cfg (some text) (reload_and_save refusing text cfg).cfg)
load-KeepsOrAccepts_example = load-KeepsOrAccepts refusing cfg (omega arith)

reload_and_save-forgets_example :
    ((reload_and_save accepting 5 (reload_and_save refusing 5 cfg).cfg).error ≡ none)
    × (curr_buffer (reload_and_save accepting 5 (reload_and_save refusing 5 cfg).cfg).cfg
        ≡ curr_buffer cfg)
unfolding reload_and_save with_next
reload_and_save-forgets_example =
    reload_and_save-forgets refusing accepting cfg 5 5 (callback_error 9) (omega arith) refl refl
      refl refl (λ n. refl)
