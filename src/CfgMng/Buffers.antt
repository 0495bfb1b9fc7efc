-- ===== src/CfgMng/Buffers.antt =====
-- component/cfg/cfg.go: what the readers of a configuration see.
use common_fw.Common.{
  ℕ, ◌<◌, ◌≡◌, ◌⊎◌, inl, inr, refl, ℤ, pos, Bool, true, false, ◌||◌, Option, none, some,
  if◌then◌else◌, sym, ◌∙◌, ap, subst, arith,
}
use common_fw.CfgMng.{
  Message, Text, Cfg, Env, LoadError, Read, curr_buffer, next_buffer, with_next, with_md5,
  switch_buffer, same_sum, answer, read_sum, read_message, read_text, load_impl, after_post,
  after_read, after_prev, load, save_text, post_text, sum_text, accept_text, reload_and_save,
}

next-next : (m : Message) (c : Cfg) → next_buffer (with_next m c) ≡ m
unfolding next_buffer with_next
next-next m c = ground arith

pub curr-next :
    (m : Message) (c : Cfg) → c.curr_idx < 2 → curr_buffer (with_next m c) ≡ curr_buffer c
unfolding curr_buffer with_next
curr-next m c h = ground arith

curr-switch : (n : ℕ) (c : Cfg) → curr_buffer (switch_buffer n c) ≡ next_buffer c
unfolding curr_buffer next_buffer switch_buffer
curr-switch n c = refl

module _ (env : Env) where
  -- A text whose message the callback accepts, and that has not been loaded last.
  pub record IsAccepted (c : Cfg) (text : Text) (m : Message) : Type 0 where
    pub parsed : env.unmarshal text (next_buffer c) ≡ (m, true)
    pub changed : same_sum c.md5 (env.sum text) ≡ false
    pub approved : (answer c.has_post (env.post m)).1 ≡ none

  -- What loadimpl leaves for Post: the message in the next buffer.
  record IsRead (c c' : Cfg) (text : Text) : Type 0 where
    parsed : env.unmarshal text (next_buffer c) ≡ (next_buffer c', true)
    changed : same_sum c.md5 (env.sum text) ≡ false
    same_post : c'.has_post ≡ c.has_post
    same_curr : curr_buffer c' ≡ curr_buffer c

  abbrev ReadEnds : Cfg → Option Text → Read → Type 0
  ReadEnds c o r =
      (curr_buffer r.after ≡ curr_buffer c)
      × ((r.failure ≡ none) → (text : Text) × (o ≡ some text) × IsRead c r.after text)

  -- The next buffer has the message, and the sum is set.
  parsed-IsRead :
      (c : Cfg) (text : Text)
      → c.curr_idx < 2
      → (env.unmarshal text (next_buffer c)).1 ≡ true
      → same_sum c.md5 (env.sum text) ≡ false
      → IsRead c (with_md5 (env.sum text) (with_next (env.unmarshal text (next_buffer c)).0 c)) text
  unfolding with_md5 with_next curr_buffer next_buffer
  parsed-IsRead c text h e f =
      let m = (env.unmarshal text (next_buffer c)).0 in
      record {
        parsed = ap (λ b. (m, b)) e ∙ ap (λ n. (n, true)) (sym (next-next m c));
        changed = f;
        same_post = refl;
        same_curr = curr-next m c h;
      }

  read_sum-ReadEnds :
      (c : Cfg) (text : Text) (b : Bool)
      → c.curr_idx < 2
      → (env.unmarshal text (next_buffer c)).1 ≡ true
      → same_sum c.md5 (env.sum text) ≡ b
      → ReadEnds c
          (some text)
          (read_sum env b (env.sum text) (with_next (env.unmarshal text (next_buffer c)).0 c))
  read_sum-ReadEnds c text true h e f =
      (curr-next (env.unmarshal text (next_buffer c)).0 c h, λ x. absurd (cc))
  read_sum-ReadEnds c text false h e f =
      let r = parsed-IsRead c text h e f in (r.same_curr, λ x. (text, refl, r))

  read_message-ReadEnds :
      (c : Cfg) (text : Text) (b : Bool)
      → c.curr_idx < 2
      → (env.unmarshal text (next_buffer c)).1 ≡ b
      → ReadEnds c
          (some text)
          (read_message env b text (with_next (env.unmarshal text (next_buffer c)).0 c))
  unfolding with_next
  read_message-ReadEnds c text false h e =
      (curr-next (env.unmarshal text (next_buffer c)).0 c h, λ x. absurd (cc))
  read_message-ReadEnds c text true h e =
      read_sum-ReadEnds c text (same_sum c.md5 (env.sum text)) h e refl

  read_text-ReadEnds :
      (c : Cfg) (o : Option Text) → c.curr_idx < 2 → ReadEnds c o (read_text env o c)
  read_text-ReadEnds c none h = (refl, λ x. absurd (cc))
  read_text-ReadEnds c (some text) h =
      read_message-ReadEnds c text (env.unmarshal text (next_buffer c)).1 h refl

  -- What a call leaves for the readers: what they had, or an accepted message.
  abbrev pub KeepsOrAccepts : Cfg → Option Text → Cfg → Type 0
  KeepsOrAccepts c o c' =
      (curr_buffer c' ≡ curr_buffer c)
      ⊎ ((text : Text) × (o ≡ some text) × IsAccepted c text (curr_buffer c'))

  switch-IsAccepted :
      (c c' : Cfg) (text : Text) (now : ℕ)
      → IsRead c c' text
      → (answer c'.has_post (env.post (next_buffer c'))).1 ≡ none
      → IsAccepted c text (curr_buffer (switch_buffer now c'))
  switch-IsAccepted c c' text now r f = record {
    parsed = r.parsed ∙ ap (λ n. (n, true)) (sym (curr-switch now c'));
    changed = r.changed;
    approved =
        ap (λ n. (answer c.has_post (env.post n)).1) (curr-switch now c')
        ∙ (ap (λ b. (answer b (env.post (next_buffer c'))).1) (sym r.same_post) ∙ f);
  }

  after_post-KeepsOrAccepts :
      (c c' : Cfg) (text : Text) (a : ℤ × Option ℕ)
      → IsRead c c' text
      → answer c'.has_post (env.post (next_buffer c')) ≡ a
      → KeepsOrAccepts c (some text) (after_post env a c').cfg
  after_post-KeepsOrAccepts c c' text (res, some e) r f = inl r.same_curr
  after_post-KeepsOrAccepts c c' text (res, none) r f =
      inr (text, refl, switch-IsAccepted c c' text env.now r (ap (λ a. a.1) f))

  after_read-KeepsOrAccepts :
      (c c' : Cfg) (o : Option Text) (f : Option LoadError)
      → ReadEnds c o (record { failure = f; after = c' })
      → KeepsOrAccepts c o (after_read env f c').cfg
  after_read-KeepsOrAccepts c c' o none h =
      let r = h.1 refl in
      let way = after_post-KeepsOrAccepts c c' r.0 _ r.2 refl in
      subst (λ o. KeepsOrAccepts c o (after_read env none c').cfg) (sym r.1) way
  after_read-KeepsOrAccepts c c' o (some f) h = inl h.0

  after_prev-KeepsOrAccepts :
      (c : Cfg) (a : ℤ × Option ℕ)
      → c.curr_idx < 2
      → KeepsOrAccepts c (env.read c.path) (after_prev env a c).cfg
  unfolding load_impl
  after_prev-KeepsOrAccepts c (res, some e) h = inl refl
  after_prev-KeepsOrAccepts c (res, none) h =
      after_read-KeepsOrAccepts c _ (env.read c.path) _ (read_text-ReadEnds c (env.read c.path) h)

  save_text-KeepsOrAccepts :
      (c c' : Cfg) (text : Text) (b : Bool)
      → IsRead c c' text
      → (answer c'.has_post (env.post (next_buffer c'))).1 ≡ none
      → KeepsOrAccepts c (some text) (save_text env b c').cfg
  save_text-KeepsOrAccepts c c' text false r f = inl r.same_curr
  save_text-KeepsOrAccepts c c' text true r f =
      inr (text, refl, switch-IsAccepted c c' text env.now r f)

  post_text-KeepsOrAccepts :
      (c c' : Cfg) (text : Text) (a : ℤ × Option ℕ)
      → IsRead c c' text
      → answer c'.has_post (env.post (next_buffer c')) ≡ a
      → KeepsOrAccepts c (some text) (post_text env a text c').cfg
  post_text-KeepsOrAccepts c c' text (res, some e) r f = inl r.same_curr
  post_text-KeepsOrAccepts c c' text (res, none) r f =
      save_text-KeepsOrAccepts c c' text (env.write c'.path text) r (ap (λ a. a.1) f)

  sum_text-KeepsOrAccepts :
      (c : Cfg) (text : Text) (b : Bool)
      → c.curr_idx < 2
      → (env.unmarshal text (next_buffer c)).1 ≡ true
      → same_sum c.md5 (env.sum text) ≡ b
      → KeepsOrAccepts c
          (some text)
          (sum_text env b text (with_next (env.unmarshal text (next_buffer c)).0 c)).cfg
  unfolding with_md5 next_buffer
  sum_text-KeepsOrAccepts c text true h e f =
      inl (curr-next (env.unmarshal text (next_buffer c)).0 c h)
  sum_text-KeepsOrAccepts c text false h e f =
      post_text-KeepsOrAccepts c _ text _ (parsed-IsRead c text h e f) refl

  accept_text-KeepsOrAccepts :
      (c : Cfg) (text : Text) (b : Bool)
      → c.curr_idx < 2
      → (env.unmarshal text (next_buffer c)).1 ≡ b
      → KeepsOrAccepts c
          (some text)
          (accept_text env b text (with_next (env.unmarshal text (next_buffer c)).0 c)).cfg
  unfolding with_next
  accept_text-KeepsOrAccepts c text false h e =
      inl (curr-next (env.unmarshal text (next_buffer c)).0 c h)
  accept_text-KeepsOrAccepts c text true h e =
      sum_text-KeepsOrAccepts c text (same_sum c.md5 (env.sum text)) h e refl

-- Whatever fails while a configuration is loaded from its file, or reloaded with a text and saved:
-- its readers have the message that they had, or one that the text gives, which is not the text
-- loaded last, and which Post, where there is one, has accepted.
pub load-KeepsOrAccepts :
    (env : Env) (c : Cfg)
    → c.curr_idx < 2
    → ((init_load : Bool) → KeepsOrAccepts env c (env.read c.path) (load env init_load c).cfg)
      × ((text : Text) → KeepsOrAccepts env c (some text) (reload_and_save env text c).cfg)
unfolding load reload_and_save
load-KeepsOrAccepts env c h = (
  λ init_load. loads (c.reloadable || init_load),
  λ text. accept_text-KeepsOrAccepts env c text (env.unmarshal text (next_buffer c)).1 h refl,
)
  where
    loads :
        (b : Bool)
        → KeepsOrAccepts env c
            (env.read c.path)
            (if b
              then after_prev env (answer c.has_prev (env.prev (curr_buffer c))) c
              else record { res = pos 0; error = none; cfg = c }).cfg
    loads true = after_prev-KeepsOrAccepts env c _ h
    loads false = inl refl
