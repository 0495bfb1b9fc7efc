-- ===== src/Net/Client/Registry.antt =====
-- component/net/client/client.go: connMap, the jobs of its connections, and how they end.
use common_fw.Common.{
  ℕ, ◌≡◌, ◌≢◌, inl, inr, refl, Bool, true, false, Option, none, some, List, [], ◌∷◌, ◌==◌,
  if◌then◌else◌, ok, Assoc, Entry, exists, lookup, assign, erase, lookup-assign_same,
  lookup-assign_other, lookup-erase_same, lookup-erase_other, Bool-cases, sym, ◌∙◌, ap, subst,
  ==_iff, arith,
}
use common_fw.Service.Config.{Text, Texts}
use common_fw.Net.Client.{
  Conn, Client, ClientCfg, LoadedServers, complete, invalid, close_server, close_gone, load_servers,
  no_servers, reload_cfg, reload_with, close_all_gone, close_if,
}
use common_fw.Net.Client.Jobs.{
  Job, World, Step, Steps, HasJob, remove_job, is_job, is_closed, Checked, check_server, check_loop,
  check_conns, register_conn, register_as, unregister_conn, with_conn_map, is_lost,
}

-- Every connection that is registered has its job.
unfoldable pub IsServed : World → Type 0
IsServed w =
    (id : ℕ) (conn : Conn)
    → lookup w.client.conn_map id ≡ some conn
    → HasJob w.jobs (record { conn = conn; id = id })

-- The entries of a table are among another's.
abbrev Within : Assoc Conn → Assoc Conn → Type 0
Within m n = (id : ℕ) (conn : Conn) → lookup m id ≡ some conn → lookup n id ≡ some conn

erase-Within : (m : Assoc Conn) (k : ℕ) → Within (erase m k) m
erase-Within m k id conn h = elim (Bool-cases (id == k)) [
  | inl e ↦ let same = (==_iff id k).0 e in let gone = lookup-erase_same m k in absurd (cc)
  | inr e ↦ (let kept = lookup-erase_other m k id (ground arith) in cc)
]

check_server-Within :
    (closed : Conn → Bool) (e : Entry ℕ) (k : Checked)
    → Within (check_server closed e k).conn_map k.conn_map
check_server-Within closed e k id conn h = go (is_lost closed (lookup k.conn_map e.value)) h
  where
    go :
        (b : Bool)
        → lookup
            (if b
              then record { conn_map = erase k.conn_map e.value; dialled = e.key ∷ k.dialled }
              else k).conn_map
            id
          ≡ some conn
        → lookup k.conn_map id ≡ some conn
    go true h = erase-Within k.conn_map e.value id conn h
    go false h = h

check_loop-Within :
    (closed : Conn → Bool) (es : Assoc ℕ) (k : Checked)
    → Within (check_loop closed es k).conn_map k.conn_map
unfolding check_loop
check_loop-Within closed [] k id conn h = h
check_loop-Within closed (e ∷ es) k id conn h =
    check_server-Within closed e k id conn
      (check_loop-Within closed es (check_server closed e k) id conn h)

close_if-Within :
    (o : Option Conn) (svr : ℕ) (c : Client) → Within (close_if o svr c).conn_map c.conn_map
close_if-Within none svr c id conn h = h
close_if-Within (some x) svr c id conn h = erase-Within c.conn_map svr id conn h

kept_or_closed-Within :
    (b : Bool) (svr : ℕ) (c : Client)
    → Within (if b then c else close_server svr c).conn_map c.conn_map
unfolding close_server
kept_or_closed-Within true svr c id conn h = h
kept_or_closed-Within false svr c id conn h =
    close_if-Within (lookup c.conn_map svr) svr c id conn h

close_gone-Within :
    (old new : Assoc ℕ) (c : Client) → Within (close_gone old new c).conn_map c.conn_map
unfolding close_gone
close_gone-Within [] new c id conn h = h
close_gone-Within (e ∷ es) new c id conn h =
    kept_or_closed-Within (exists (lookup new e.key)) e.value c id conn
      (close_gone-Within es new _ id conn h)

loaded-Within :
    (c c' : Client) (cfg : ClientCfg) (l : LoadedServers)
    → reload_with cfg c l ≡ ok c'
    → Within c'.conn_map c.conn_map
loaded-Within c c' cfg (invalid s) e id conn h = absurd (cc)
loaded-Within c c' cfg (complete s) e id conn h =
    let same : close_all_gone cfg s c ≡ c' = cc in
    close_gone-Within c.svr_id_map s.id_map c id conn
      (subst (λ (x : Client). lookup x.conn_map id ≡ some conn) (sym same) h)

reload_cfg-Within :
    (texts : Texts) (cfg : Option ClientCfg) (c c' : Client)
    → reload_cfg texts cfg c ≡ ok c'
    → Within c'.conn_map c.conn_map
unfolding reload_cfg
reload_cfg-Within texts none c c' e id conn h = absurd (cc)
reload_cfg-Within texts (some cfg) c c' e id conn h =
    loaded-Within c c' cfg (load_servers texts cfg.server_entries no_servers) e id conn h

HasJob-remove_job :
    (ks : List Job) (j k : Job) → k.id ≢ j.id → HasJob ks k → HasJob (remove_job j ks) k
unfolding remove_job
HasJob-remove_job [] j k e h = h
HasJob-remove_job (i ∷ ks) j k e (inl f) = elim (Bool-cases (is_job j i)) [
  | inl g ↦
      let same : j.id ≡ i.id = ground arith in
      let same' : i.id ≡ k.id = ap (λ (x : Job). x.id) f in absurd (e (sym same' ∙ sym same))
  | inr g ↦ rw (g, remove_job) (inl f)
]
HasJob-remove_job (i ∷ ks) j k e (inr r) = elim (Bool-cases (is_job j i)) [
  | inl g ↦ rw (g, remove_job) r
  | inr g ↦ rw (g, remove_job) (inr (HasJob-remove_job ks j k e r))
]

assign-IsServed :
    (m : Assoc Conn) (jobs : List Job) (svr : ℕ) (new : Conn)
    → ((id : ℕ) (conn : Conn)
        → lookup m id ≡ some conn
        → HasJob jobs (record { conn = conn; id = id }))
    → (id : ℕ) (conn : Conn) → lookup (assign m svr new) id ≡ some conn
    → HasJob (record { conn = new; id = svr } ∷ jobs) (record { conn = conn; id = id })
assign-IsServed m jobs svr new h id conn e = elim (Bool-cases (id == svr)) [
  | inl f ↦
      let same : svr ≡ id = sym ((==_iff id svr).0 f) in
      let here = lookup-assign_same m svr new in let same' : new ≡ conn = cc in inl (cc)
  | inr f ↦
      let there = lookup-assign_other m svr id new (ground arith) in inr (h id conn (sym there ∙ e))
]

registers-IsServed :
    (w : World) (o : Option ℕ) (conn : Conn) (c' : Client) (id : ℕ)
    → register_as o conn w.client ≡ some (c', id)
    → IsServed w
    → IsServed (record {
      client = c';
      jobs = record { conn = conn; id = id } ∷ w.jobs;
      hung_up = w.hung_up;
    })
unfolding IsServed
registers-IsServed w none conn c' id e h = absurd (cc)
registers-IsServed w (some svr) conn c' id e h =
    let same : svr ≡ id = cc in
    let same' : with_conn_map (assign w.client.conn_map svr conn) w.client ≡ c' = cc in
    λ k x f. assign-IsServed w.client.conn_map w.jobs id conn h k x (
      ap (λ i. lookup (assign w.client.conn_map i conn) k) (sym same)
      ∙ (ap (λ (y : Client). lookup y.conn_map k) same' ∙ f))

Step-IsServed : (w v : World) → Step w v → IsServed w → IsServed v
unfolding IsServed unregister_conn check_conns register_conn
Step-IsServed w v (Step.registers _ addr conn c' id fresh reg) h =
    registers-IsServed w (lookup w.client.svr_id_map addr) conn c' id reg h
Step-IsServed w v (Step.hangs_up _ conn) h = h
Step-IsServed w v (Step.job_ends _ j has_j) h = λ id conn e. elim (Bool-cases (id == j.id)) [
  | inl f ↦
      let same = (==_iff id j.id).0 f in
      let gone = lookup-erase_same w.client.conn_map j.id in absurd (cc)
  | inr f ↦
      HasJob-remove_job w.jobs j _ (ground arith)
        (h id conn (erase-Within w.client.conn_map j.id id conn e))
]
Step-IsServed w v (Step.checks _) h = λ id conn e. h id conn (
    check_loop-Within (is_closed w) w.client.svr_id_map
      (record { conn_map = w.client.conn_map; dialled = [] }) id conn e)
Step-IsServed w v (Step.reloads _ texts cfg c' e) h =
    λ id conn f. h id conn (reload_cfg-Within texts cfg w.client c' e id conn f)

-- Whatever connections are made, hang up and are registered, in whatever order their jobs end,
-- rounds of checkConns pass and configurations are loaded: a client that has a running job for
-- every connection in connMap, which reads it and keeps it alive, has one always.
pub Steps-IsServed : (w v : World) → Steps w v → IsServed w → IsServed v
Steps-IsServed w v (Steps.done _) h = h
Steps-IsServed w v (Steps.then_step _ s r) h = Steps-IsServed _ v r (Step-IsServed w _ s h)

-- The worlds that a connection's closing, a round of checkConns, a registration and a job's end leave.
abbrev pub hung_world : World → Conn → World
hung_world w conn = record { client = w.client; jobs = w.jobs; hung_up = conn ∷ w.hung_up }

abbrev pub checked_world : World → World
checked_world w = record {
  client = with_conn_map (check_conns (is_closed w) w.client).conn_map w.client;
  jobs = w.jobs;
  hung_up = w.hung_up;
}

abbrev pub registered_world : World → ℕ → Conn → World
registered_world w id conn = record {
  client = with_conn_map (assign w.client.conn_map id conn) w.client;
  jobs = record { conn = conn; id = id } ∷ w.jobs;
  hung_up = w.hung_up;
}

abbrev pub ended_world : World → Job → World
ended_world w j = record {
  client = unregister_conn j.id w.client;
  jobs = remove_job j w.jobs;
  hung_up = j.conn ∷ w.hung_up;
}

still_fresh :
    (w : World) (old new : Conn)
    → new ≢ old
    → is_closed w new ≡ false
    → is_closed (record { client = w.client; jobs = w.jobs; hung_up = old ∷ w.hung_up }) new ≡ false
unfolding is_closed
still_fresh w old new differ fresh = ground arith

stays :
    (jobs : List Job) (id : ℕ) (old new : Conn)
    → new ≢ old
    → HasJob
        (remove_job (record { conn = old; id = id }) (record { conn = new; id = id } ∷ jobs))
        (record { conn = new; id = id })
unfolding remove_job
stays jobs id old new differ =
    let other : (old == new) ≡ false = ground arith in rw (other, remove_job) (inl refl)

-- A job that ends removes whatever connection its server has by then. While the job of a
-- connection runs, the connection is closed, then a round of checkConns passes, then a new connection
-- to the same server is registered and is the server's connection in connMap; when the old job ends
-- then, the new connection is not closed and its job runs, but connMap has no connection of the server.
-- Each of the four is a step of the client, from any world where the server is known, the old
-- connection has its job, and the new connection is another one and is open.
pub Steps-strays :
    (w : World) (addr : Text) (id : ℕ) (old new : Conn)
    → lookup w.client.svr_id_map addr ≡ some id
    → HasJob w.jobs (record { conn = old; id = id })
    → new ≢ old
    → is_closed w new ≡ false
    → let hung = hung_world w old in
      let looked = checked_world hung in
      let back = registered_world looked id new in
      let ended = ended_world back (record { conn = old; id = id }) in
      Step w hung
      × Step hung looked
      × Step looked back
      × (lookup back.client.conn_map id ≡ some new)
      × Step back ended
      × HasJob ended.jobs (record { conn = new; id = id })
      × (is_closed ended new ≡ false)
      × (lookup ended.client.conn_map id ≡ none)
unfolding register_conn unregister_conn is_closed
Steps-strays w addr id old new known runs differ fresh =
    let hung : World = hung_world w old in
    let looked = checked_world hung in
    let back = registered_world looked id new in
    let still = still_fresh w old new differ fresh in
    (
      Step.hangs_up w old,
      Step.checks hung,
      Step.registers looked addr new _ id still (ap (λ o. register_as o new looked.client) known),
      lookup-assign_same looked.client.conn_map id new,
      Step.job_ends back (record { conn = old; id = id }) (inr runs),
      stays w.jobs id old new differ,
      still_fresh hung old new differ still,
      lookup-erase_same back.client.conn_map id,
    )
