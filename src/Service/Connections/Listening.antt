-- ===== src/Service/Connections/Listening.antt =====
-- What GetConn finds, on a server whose connections have ids of their own.
use common_fw.Common.{
  ℕ, ◌+◌, ◌≡◌, refl, true, Option, none, some, [], ◌∷◌, if◌then◌else◌, occurrences,
  occurrences-append, ap, ◌∙◌, arith,
}
use common_fw.Service.Connections.{
  init, get_conn, on_new_conn, on_dis_conn, Phase, absent, connected, watched, leaving, gone,
  forgotten, World, Step, registers, sets_callback, closes, closes_early, listens, Steps, done,
  then_step, at_first, is_listed,
}

abbrev in_queue : Phase → ℕ
in_queue leaving = 1
in_queue _ = 0

in_queue_leaving : (x : Phase) → in_queue x ≡ 1 → x ≡ leaving
in_queue_leaving absent e = ground arith
in_queue_leaving connected e = ground arith
in_queue_leaving watched e = ground arith
in_queue_leaving leaving e = refl
in_queue_leaving gone e = ground arith
in_queue_leaving forgotten e = ground arith

in_queue_at_most : (n : ℕ) (x : Phase) → 1 + n ≡ in_queue x → in_queue x ≡ 1
in_queue_at_most n absent e = ground arith
in_queue_at_most n connected e = ground arith
in_queue_at_most n watched e = ground arith
in_queue_at_most n leaving e = refl
in_queue_at_most n gone e = ground arith
in_queue_at_most n forgotten e = ground arith

abbrev slot : ℕ → Phase → Option ℕ
slot c x = if is_listed x then some c else none

module _ (id_of : ℕ → ℕ) (own_ids : (c d : ℕ) → id_of c ≡ id_of d → c ≡ d) where
  record IsTracked (w : World) : Type 0 where
    inited : w.conn_mng.inited ≡ true
    present : (c : ℕ) → w.conn_mng.conns (id_of c) ≡ slot c (w.phases c)
    queued : (c : ℕ) → occurrences c w.dis_conn_chan ≡ in_queue (w.phases c)

  Step-IsTracked : {w v : World} → Step id_of w v → IsTracked w → IsTracked v
  unfolding on_new_conn on_dis_conn
  Step-IsTracked (registers w c e) t = record {
    inited = t.inited;
    present = λ d. ground (arith, t.present d, own_ids d c);
    queued = λ d. ground (arith, t.queued d);
  }
  Step-IsTracked (sets_callback w c e) t = record {
    inited = t.inited;
    present = λ d. ground (arith, t.present d);
    queued = λ d. ground (arith, t.queued d);
  }
  Step-IsTracked (closes w c e room) t = record {
    inited = t.inited;
    present = λ d. ground (arith, t.present d);
    queued = λ d. ground (arith, t.queued d, occurrences-append d w.dis_conn_chan (c ∷ []));
  }
  Step-IsTracked (closes_early w c e) t = record {
    inited = t.inited;
    present = λ d. ground (arith, t.present d);
    queued = λ d. ground (arith, t.queued d);
  }
  Step-IsTracked (listens w c rest e) t =
      let counted = ap (occurrences c) e in
      let one =
        in_queue_at_most (occurrences c rest) (w.phases c) (ground (arith, counted, t.queued c)) in
      let left = in_queue_leaving (w.phases c) one in
      record {
        inited = t.inited;
        present = λ d. ground (arith, t.present d, own_ids d c);
        queued = λ d. let n = ap (occurrences d) e in ground (arith, n, t.queued d);
      }

  Steps-IsTracked : {w v : World} → Steps id_of w v → IsTracked w → IsTracked v
  Steps-IsTracked (done w) t = t
  Steps-IsTracked (then_step x xs) t = Steps-IsTracked xs (Step-IsTracked x t)

  at_first-IsTracked : IsTracked at_first
  unfolding init
  at_first-IsTracked = record { inited = refl; present = λ c. refl; queued = λ c. refl }

  -- On a manager that Init has made, while each connection has an id of its own: whatever connections
  -- register and close, GetConn finds a connection by its id from its registration until Listen has
  -- received it from the channel of closed ones, and no connection before and after.
  pub Steps-listed :
      (w : World) (c : ℕ)
      → Steps id_of at_first w
      → get_conn (id_of c) w.conn_mng ≡ (if is_listed (w.phases c) then some c else none)
  unfolding get_conn
  Steps-listed w c x = let t = Steps-IsTracked x at_first-IsTracked in rw t.inited (t.present c)

  Step-forgotten :
      {w v : World} (c : ℕ)
      → IsTracked w
      → Step id_of w v
      → w.phases c ≡ forgotten
      → v.phases c ≡ forgotten
  Step-forgotten c t (registers w d e) f = ground arith
  Step-forgotten c t (sets_callback w d e) f = ground arith
  Step-forgotten c t (closes w d e room) f = ground arith
  Step-forgotten c t (closes_early w d e) f = ground arith
  Step-forgotten c t (listens w d rest e) f =
      let n = ap (occurrences c) e in ground (arith, n, t.queued c)

  forgotten_stays :
      {w v : World} (c : ℕ)
      → IsTracked w
      → Steps id_of w v
      → w.phases c ≡ forgotten
      → v.phases c ≡ forgotten
  forgotten_stays c t (done w) f = f
  forgotten_stays c t (then_step x xs) f =
      forgotten_stays c (Step-IsTracked x t) xs (Step-forgotten c t x f)

  -- The bug: a connection that closes after its registration, before its job has set the callback, is
  -- not taken out of the table. Whatever connections register and close then, each with an id of its
  -- own, GetConn finds the closed one.
  pub Steps-forgets :
      (w v : World) (c : ℕ)
      → Steps id_of at_first w
      → w.phases c ≡ forgotten
      → Steps id_of w v
      → get_conn (id_of c) v.conn_mng ≡ some c
  unfolding get_conn
  Steps-forgets w v c x f y =
      let t = Steps-IsTracked x at_first-IsTracked in
      let s = Steps-IsTracked y t in
      let g = forgotten_stays c t y f in rw s.inited (s.present c ∙ ap (slot c) g)
