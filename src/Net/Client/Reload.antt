-- ===== src/Net/Client/Reload.antt =====
-- component/net/client/client.go: reloadCfg and Start, and the indexes that SendMsg uses then.
use common_fw.Common.{
  ℕ, zero, suc, ◌+◌, ◌<◌, ◌≤◌, ◌≡◌, refl, Bool, true, false, List, [], ◌∷◌, Option, none, some,
  length, length-append, ok, panic, sym, ◌∙◌, ap, subst, Bool-cases, Option-cases, inl, inr, arith,
  All, if◌then◌else◌, lookup, Assoc, exists,
}
use common_fw.Service.Config.{Text, Texts, convert_server_id_string_to_number}
use common_fw.Net.Client.{
  Conn, Client, ClientCfg, ServerEntry, RouteEntry, Servers, LoadedServers, complete, invalid,
  Started, get_elem?, make_route_table, load_servers, no_servers, close_gone, close_server,
  close_if, reload_cfg, start, with_servers, reload_with, close_all_gone, with_fresh, as_started,
  commu_made, servers_loaded, start_unless,
}
use common_fw.Net.Client.Routing.{Arg, Links, rd, robin, robin_loop, send_msg}
use common_fw.Net.Client.Table.{last_idx, covers, make_route_table_lem}
use common_fw.Net.Client.Safe.{IsInRange}

-- Every route entry has the index of a server entry.
abbrev pub RoutesExist : ClientCfg → Type 0
RoutesExist cfg =
    All (λ (e : RouteEntry). e.server_idx < length cfg.server_entries) cfg.route_entries

load_servers-length :
    (texts : Texts) (es : List ServerEntry) (s s' : Servers)
    → load_servers texts es s ≡ complete s'
    → length s'.ids ≡ length s.ids + length es
unfolding load_servers
load_servers-length texts [] s s' h =
    let same : s ≡ s' = cc in omega (arith, ap (λ (x : Servers). length x.ids) same)
load_servers-length texts (e ∷ es) s s' h =
    elim (Option-cases (convert_server_id_string_to_number texts e.id)) [
      | inl f ↦ let h' = rw (f, load_servers) at h in absurd (cc)
      | inr f ↦
          let h' = rw (f.1, load_servers) at h in
          load_servers-length texts es _ s' h' ∙ omega (arith, length-append s.ids (f.0 ∷ []))
    ]

last_idx-lt :
    (es : List RouteEntry) (n h v : ℕ)
    → All (λ (e : RouteEntry). e.server_idx < n) es
    → v < n
    → last_idx es h v < n
last_idx-lt [] n h v all p = p
last_idx-lt (e ∷ es) n h v all p = elim (Bool-cases (covers e h)) [
  | inl f ↦ rw f (last_idx-lt es n h e.server_idx all.1 all.0)
  | inr f ↦ rw f (last_idx-lt es n h v all.1 p)
]

get_elem?-lt {ℓ} :
    {A : Type ℓ} (xs : List A) (i : ℕ) (a : A) → get_elem? xs i ≡ some a → i < length xs
unfolding get_elem?
get_elem?-lt [] i a e = absurd (cc)
get_elem?-lt (x ∷ xs) zero a e = omega arith
get_elem?-lt (x ∷ xs) (suc i) a e = (let r = get_elem?-lt xs i a e in omega arith)

table-lt :
    (es : List RouteEntry) (n : ℕ)
    → All (λ (e : RouteEntry). e.server_idx < n) es
    → 0 < n
    → (h v : ℕ) → get_elem? (make_route_table es) h ≡ some v
    → v < n
table-lt es n all p h v e =
    let lem = make_route_table_lem es in
    let size = lem.0 in
    let at = get_elem?-lt (make_route_table es) h v e in
    let found = lem.1 h (omega arith) in
    let same : v ≡ last_idx es h 0 = cc in rw same (last_idx-lt es n h 0 all p)

close_if-robin_idx :
    (o : Option Conn) (id : ℕ) (c : Client) → (close_if o id c).robin_idx ≡ c.robin_idx
close_if-robin_idx none id c = refl
close_if-robin_idx (some conn) id c = refl

kept_or_closed-robin_idx :
    (b : Bool) (id : ℕ) (c : Client) → (if b then c else close_server id c).robin_idx ≡ c.robin_idx
unfolding close_server
kept_or_closed-robin_idx true id c = refl
kept_or_closed-robin_idx false id c = close_if-robin_idx (lookup c.conn_map id) id c

close_gone-robin_idx :
    (old new : Assoc ℕ) (c : Client) → (close_gone old new c).robin_idx ≡ c.robin_idx
unfolding close_gone
close_gone-robin_idx [] new c = refl
close_gone-robin_idx (e ∷ es) new c =
    close_gone-robin_idx es new _ ∙ kept_or_closed-robin_idx (exists (lookup new e.key)) e.value c

-- What a configuration without errors makes of the indexes.
loaded-IsInRange :
    (cfg : ClientCfg) (texts : Texts) (s : Servers) (c : Client)
    → RoutesExist cfg
    → load_servers texts cfg.server_entries no_servers ≡ complete s
    → c.robin_idx < length cfg.server_entries
    → IsInRange (with_servers (make_route_table cfg.route_entries) s c)
loaded-IsInRange cfg texts s c routes e h =
    let len = load_servers-length texts cfg.server_entries no_servers s e in
    record {
      robin_in = omega arith;
      table_full = (make_route_table_lem cfg.route_entries).0;
      table_in = λ k v f.
          (let lt =
              table-lt cfg.route_entries (length cfg.server_entries) routes (omega arith) k v f in
            omega arith);
    }

get_elem?-none {ℓ} : {A : Type ℓ} (xs : List A) (i : ℕ) → length xs ≤ i → get_elem? xs i ≡ none
unfolding get_elem?
get_elem?-none [] i h = refl
get_elem?-none (x ∷ xs) zero h = absurd (omega arith)
get_elem?-none (x ∷ xs) (suc i) h = get_elem?-none xs i (omega arith)

robin-panics :
    (c : Client) (looks : ℕ → Links) → length c.all_svr_id ≤ c.robin_idx → robin c looks ≡ panic
unfolding robin robin_loop
robin-panics c looks h = rw (get_elem?-none c.all_svr_id c.robin_idx h, robin_loop) refl

module _ (texts : Texts) (cfg : ClientCfg) (c : Client) (routes : RoutesExist cfg) where
  -- What SendMsg finds after a reload.
  Reloads : Client → Type 0
  Reloads c' =
      (c'.robin_idx ≡ c.robin_idx)
      × (c.robin_idx < length cfg.server_entries → IsInRange c')
      × (length cfg.server_entries ≤ c.robin_idx
          → (fails : Conn → Bool) (hash : List ℕ → ℕ) (arg : Arg) (looks : ℕ → Links)
          → send_msg fails hash rd arg looks c' ≡ panic)

  complete-Reloads :
      (s : Servers)
      → load_servers texts cfg.server_entries no_servers ≡ complete s
      → Reloads (close_all_gone cfg s c)
  unfolding Reloads send_msg
  complete-Reloads s l =
      let same = close_gone-robin_idx c.svr_id_map s.id_map c in
      let len = load_servers-length texts cfg.server_entries no_servers s l in
      let after = close_all_gone cfg s c in
      (
        same,
        λ h.
            loaded-IsInRange cfg texts s (close_gone c.svr_id_map s.id_map c) routes l
              (omega arith),
        λ h fails hash arg looks.
            (let all_panic = robin-panics after looks (omega arith) in
              rw (all_panic, send_msg) refl),
      )

  reloaded-Reloads :
      (l : LoadedServers) (c' : Client)
      → load_servers texts cfg.server_entries no_servers ≡ l
      → reload_with cfg c l ≡ ok c'
      → Reloads c'
  reloaded-Reloads (invalid s) c' l r = absurd (cc)
  reloaded-Reloads (complete s) c' l r =
      let same : close_all_gone cfg s c ≡ c' = cc in subst Reloads same (complete-Reloads s l)

-- A reload that ends leaves robinIdx where it was. When the routes of the new configuration name
-- servers that it has, and robinIdx is below the number of its servers, the indexes are in range;
-- when robinIdx is not, since the list has become shorter, the next message by round robin panics.
pub reload_cfg-robin :
    (texts : Texts) (cfg : ClientCfg) (c c' : Client)
    → RoutesExist cfg
    → reload_cfg texts (some cfg) c ≡ ok c'
    → (c'.robin_idx ≡ c.robin_idx)
      × (c.robin_idx < length cfg.server_entries → IsInRange c')
      × (length cfg.server_entries ≤ c.robin_idx
          → (fails : Conn → Bool) (hash : List ℕ → ℕ) (arg : Arg) (looks : ℕ → Links)
          → send_msg fails hash rd arg looks c' ≡ panic)
unfolding reload_cfg Reloads
reload_cfg-robin texts cfg c c' routes e =
    reloaded-Reloads texts cfg c routes (load_servers texts cfg.server_entries no_servers) c' refl e

module _ (texts : Texts) (resolves : List Text → Bool) (cfg : ClientCfg) (c c' : Client) where
  -- What a client that has started took from its configuration.
  HasStarted : Type 0
  HasStarted =
      (s : Servers) × (load_servers texts cfg.server_entries no_servers ≡ complete s)
      × (c' ≡ as_started (with_fresh (make_route_table cfg.route_entries) s c))

  made_HasStarted :
      (b : Bool) (s : Servers)
      → load_servers texts cfg.server_entries no_servers ≡ complete s
      → commu_made b (with_fresh (make_route_table cfg.route_entries) s c)
        ≡ record { error = none; client = c' }
      → HasStarted
  unfolding HasStarted
  made_HasStarted true s l e = (s, l, sym (ap (λ (x : Started). x.client) e))
  made_HasStarted false s l e = (let err = ap (λ (x : Started). x.error) e in absurd (cc))

  loaded_HasStarted :
      (l : LoadedServers)
      → load_servers texts cfg.server_entries no_servers ≡ l
      → servers_loaded texts resolves cfg c l ≡ record { error = none; client = c' }
      → HasStarted
  loaded_HasStarted (invalid s) l e = (let err = ap (λ (x : Started). x.error) e in absurd (cc))
  loaded_HasStarted (complete s) l e = made_HasStarted (resolves s.addrs) s l e

  unless_HasStarted :
      (b : Bool)
      → start_unless texts resolves b (some cfg) c ≡ record { error = none; client = c' }
      → HasStarted
  unless_HasStarted true e = (let err = ap (λ (x : Started). x.error) e in absurd (cc))
  unless_HasStarted false e =
      loaded_HasStarted (load_servers texts cfg.server_entries no_servers) refl e

  start-HasStarted :
      start texts resolves (some cfg) c ≡ record { error = none; client = c' } → HasStarted
  unfolding start
  start-HasStarted e = unless_HasStarted c.is_started e

-- A client that starts with routes to servers that there are has its indexes in range, when
-- robinIdx, which Start leaves, is below the number of its servers.
pub start-IsInRange :
    (texts : Texts) (resolves : List Text → Bool) (cfg : ClientCfg) (c c' : Client)
    → RoutesExist cfg
    → start texts resolves (some cfg) c ≡ record { error = none; client = c' }
    → c.robin_idx < length cfg.server_entries
    → IsInRange c'
unfolding HasStarted
start-IsInRange texts resolves cfg c c' routes e h =
    let has = start-HasStarted texts resolves cfg c c' e in
    let ready = loaded-IsInRange cfg texts has.0 c routes has.1 h in
    subst IsInRange (sym has.2) (record {
      robin_in = ready.robin_in;
      table_full = ready.table_full;
      table_in = ready.table_in;
    })
