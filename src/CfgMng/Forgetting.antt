-- ===== src/CfgMng/Forgetting.antt =====
-- component/cfg/cfg.go: a text that has been refused, given again to ReloadAndSave.
use common_fw.Common.{ℕ, ◌<◌, ◌≡◌, refl, ℤ, Bool, true, false, Option, none, some, sym, ◌∙◌, ==_iff}
use common_fw.CfgMng.{
  Message, Text, Cfg, Env, LoadError, curr_buffer, next_buffer, with_next, with_md5, same_sum,
  answer, save_text, post_text, reload_and_save,
}
use common_fw.CfgMng.Buffers.{curr-next}

module _ (env : Env) where
  -- A call that fails behind the test of the sum has set the sum.
  save_text-cfg :
      (b : Bool) (c : Cfg) (f : LoadError)
      → (save_text env b c).error ≡ some f
      → (save_text env b c).cfg ≡ c
  save_text-cfg false c f e = refl
  save_text-cfg true c f e = absurd (cc)

  post_text-cfg :
      (a : ℤ × Option ℕ) (text : Text) (c : Cfg) (f : LoadError)
      → (post_text env a text c).error ≡ some f
      → (post_text env a text c).cfg ≡ c
  post_text-cfg (res, some x) text c f e = refl
  post_text-cfg (res, none) text c f e = save_text-cfg (env.write c.path text) c f e

  refused-cfg :
      (c : Cfg) (text : Text) (m : Message) (f : LoadError)
      → c.curr_idx < 2
      → env.unmarshal text (next_buffer c) ≡ (m, true)
      → same_sum c.md5 (env.sum text) ≡ false
      → (reload_and_save env text c).error ≡ some f
      → (reload_and_save env text c).cfg ≡ with_md5 (env.sum text) (with_next m c)
  unfolding reload_and_save with_next
  refused-cfg c text m f h p d e =
      let e' = rw (p, d, reload_and_save, with_next) at e in
      rw (p, d, reload_and_save, with_next)
        (post_text-cfg (answer c.has_post (env.post (next_buffer (with_next m c)))) text _ f e')

-- A text with the sum of the text loaded last changes nothing for the readers.
unchanged-Keeps :
    (env : Env) (c : Cfg) (text : Text)
    → c.curr_idx < 2
    → (env.unmarshal text (next_buffer c)).1 ≡ true
    → same_sum c.md5 (env.sum text) ≡ true
    → ((reload_and_save env text c).error ≡ none)
      × (curr_buffer (reload_and_save env text c).cfg ≡ curr_buffer c)
unfolding reload_and_save with_next
unchanged-Keeps env c text h p d =
    let m = (env.unmarshal text (next_buffer c)).0 in
    (
      rw (p, d, reload_and_save, with_next) refl,
      rw (p, d, reload_and_save, with_next) (curr-next m c h),
    )

-- A text that ReloadAndSave refuses with an error after it has been parsed, since Post or the
-- writing of the file fails, counts as loaded: the same text is accepted from then on, whatever
-- Post and the file say, without an error and without any change for the readers.
pub reload_and_save-forgets :
    (env env' : Env) (c : Cfg) (text : Text) (m : Message) (f : LoadError)
    → c.curr_idx < 2
    → env.unmarshal text (next_buffer c) ≡ (m, true)
    → same_sum c.md5 (env.sum text) ≡ false
    → (reload_and_save env text c).error ≡ some f
    → env'.sum text ≡ env.sum text
    → ((n : Message) → (env'.unmarshal text n).1 ≡ true)
    → ((reload_and_save env' text (reload_and_save env text c).cfg).error ≡ none)
      × (curr_buffer (reload_and_save env' text (reload_and_save env text c).cfg).cfg
          ≡ curr_buffer c)
unfolding with_md5 with_next curr_buffer
reload_and_save-forgets env env' c text m f h p d e s ok =
    let left = refused-cfg env c text m f h p d e in
    let again : same_sum (some (env.sum text)) (env'.sum text) ≡ true =
      (==_iff (env.sum text) (env'.sum text)).1 (sym s) in
    let kept =
      unchanged-Keeps env' (with_md5 (env.sum text) (with_next m c)) text h
        (ok (next_buffer (with_md5 (env.sum text) (with_next m c)))) again in
    rw left (kept.0, kept.1 ∙ curr-next m c h)
