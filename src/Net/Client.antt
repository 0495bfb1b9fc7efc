-- ===== src/Net/Client.antt =====
-- component/net/client/client.go: the client component, its configuration and its connections.
pub mod Routing
pub mod Robin
pub mod Fair
pub mod Table
pub mod Safe
pub mod Reload
pub mod Jobs
pub mod Registry
mod Examples
use common_fw.Common.{
  ℕ, zero, suc, ◌+◌, ◌-◌, ◌≤◌, ◌<◌, Bool, true, false, ◌&&◌, Option, none, some, List, [], ◌∷◌,
  ◌++◌, ltb, leb, ◌==◌, if◌then◌else◌, exists, length, replicate, Outcome, ok, panic, Assoc, Entry,
  lookup, assign, erase,
}
use common_fw.Service.Config.{Text, Texts, convert_server_id_string_to_number}

-- dao.TableNum
abbrev pub max_server_num : ℕ
max_server_num = 512

-- A connection, by its address in memory.
abbrev pub Conn : Type 0
Conn = ℕ

-- The fields of entries are there: a nil field, on which the code panics, is not modelled.
pub record ServerEntry : Type 0 where
  pub id : Text
  pub addrs : List Text

pub record RouteEntry : Type 0 where
  pub hash_begin : ℕ
  pub hash_end : ℕ
  pub server_idx : ℕ

pub record ClientCfg : Type 0 where
  pub server_entries : List ServerEntry
  pub route_entries : List RouteEntry

-- `closed_conns` has the connections that the component itself has closed.
pub record Client : Type 0 where
  pub is_started : Bool
  pub robin_idx : ℕ
  pub all_svr_id : List ℕ
  pub svr_id_map : Assoc ℕ
  pub conn_map : Assoc Conn
  pub route_table : List ℕ
  pub closed_conns : List Conn

-- `xs[i]`, `none` out of range
unfoldable pub get_elem? {ℓ} : {A : Type ℓ} → List A → ℕ → Option A
get_elem? [] i = none
get_elem? (x ∷ xs) zero = some x
get_elem? (x ∷ xs) (suc i) = get_elem? xs i

-- `xs[i] = v`, for an i that is in range
unfoldable pub set_elem {ℓ} : {A : Type ℓ} → List A → ℕ → A → List A
set_elem [] i v = []
set_elem (x ∷ xs) zero v = v ∷ xs
set_elem (x ∷ xs) (suc i) v = x ∷ set_elem xs i v

-- `for i := begin; i <= end && i < maxServerNum; i++`: the fuel is the number of indexes left.
unfoldable pub fill : ℕ → ℕ → ℕ → ℕ → List ℕ → List ℕ
fill zero i end v rt = rt
fill (suc fuel) i end v rt = elim (leb i end && ltb i max_server_num) [
  | true ↦ fill fuel (i + 1) end v (set_elem rt i v)
  | false ↦ rt
]

unfoldable pub fill_entries : List RouteEntry → List ℕ → List ℕ
fill_entries [] rt = rt
fill_entries (e ∷ es) rt =
    fill_entries es (fill (max_server_num - e.hash_begin) e.hash_begin e.hash_end e.server_idx rt)

unfoldable pub make_route_table : List RouteEntry → List ℕ
make_route_table es = fill_entries es (replicate max_server_num 0)

abbrev pub assign_all : List Text → ℕ → Assoc ℕ → Assoc ℕ
assign_all [] id m = m
assign_all (d ∷ ds) id m = assign_all ds id (assign m d id)

-- The servers of a configuration: allSvrId, svrIdMap and addrs.
pub record Servers : Type 0 where
  pub ids : List ℕ
  pub id_map : Assoc ℕ
  pub addrs : List Text

-- What the loop has when it is done, or when it meets an id that is invalid.
pub data LoadedServers : Type 0 where
  complete : Servers → LoadedServers
  invalid : Servers → LoadedServers

module _ (texts : Texts) where
  unfoldable pub load_servers : List ServerEntry → Servers → LoadedServers
  load_servers [] s = complete s
  load_servers (e ∷ es) s = elim (convert_server_id_string_to_number texts e.id) [
    | none ↦ invalid s
    | some id ↦ load_servers es (record {
      ids = s.ids ++ id ∷ [];
      id_map = assign_all e.addrs id s.id_map;
      addrs = s.addrs ++ e.addrs;
    })
  ]

abbrev pub no_servers : Servers
no_servers = record { ids = []; id_map = []; addrs = [] }

-- `conn.Close(); delete(c.connMap, svrId)`, where there is a connection
abbrev pub close_if : Option Conn → ℕ → Client → Client
close_if none svr_id c = c
close_if (some conn) svr_id c = record {
  is_started = c.is_started;
  robin_idx = c.robin_idx;
  all_svr_id = c.all_svr_id;
  svr_id_map = c.svr_id_map;
  conn_map = erase c.conn_map svr_id;
  route_table = c.route_table;
  closed_conns = conn ∷ c.closed_conns;
}

unfoldable pub close_server : ℕ → Client → Client
close_server svr_id c = close_if (lookup c.conn_map svr_id) svr_id c

-- The loop over the old svrIdMap.
unfoldable pub close_gone : Assoc ℕ → Assoc ℕ → Client → Client
close_gone [] new c = c
close_gone (e ∷ es) new c =
    close_gone es new (if exists (lookup new e.key) then c else close_server e.value c)

abbrev pub with_servers : List ℕ → Servers → Client → Client
with_servers rt s c = record {
  is_started = c.is_started;
  robin_idx = c.robin_idx;
  all_svr_id = s.ids;
  svr_id_map = s.id_map;
  conn_map = c.conn_map;
  route_table = rt;
  closed_conns = c.closed_conns;
}

abbrev pub close_all_gone : ClientCfg → Servers → Client → Client
close_all_gone cfg s c =
    with_servers (make_route_table cfg.route_entries) s (close_gone c.svr_id_map s.id_map c)

-- An invalid server id is a panic.
abbrev pub reload_with : ClientCfg → Client → LoadedServers → Outcome Client
reload_with cfg c (invalid s) = panic
reload_with cfg c (complete s) = ok (close_all_gone cfg s c)

-- `none` stands for a configuration that cfgMgr does not have.
unfoldable pub reload_cfg : Texts → Option ClientCfg → Client → Outcome Client
reload_cfg texts none c = panic
reload_cfg texts (some cfg) c = reload_with cfg c (load_servers texts cfg.server_entries no_servers)

pub data StartError : Type 0 where
  already_started no_cfg invalid_server_id no_commu : StartError

-- Start's error, `none` for nil, and the client it leaves.
pub record Started : Type 0 where
  pub error : Option StartError
  pub client : Client

-- The fields that Start sets first.
abbrev pub with_fresh : List ℕ → Servers → Client → Client
with_fresh rt s c = record {
  is_started = c.is_started;
  robin_idx = c.robin_idx;
  all_svr_id = s.ids;
  svr_id_map = s.id_map;
  conn_map = [];
  route_table = rt;
  closed_conns = c.closed_conns;
}

abbrev pub as_started : Client → Client
as_started c = record {
  is_started = true;
  robin_idx = c.robin_idx;
  all_svr_id = c.all_svr_id;
  svr_id_map = c.svr_id_map;
  conn_map = c.conn_map;
  route_table = c.route_table;
  closed_conns = c.closed_conns;
}

-- Whether NewCommu makes a component, or returns nil.
abbrev pub commu_made : Bool → Client → Started
commu_made true c = record { error = none; client = as_started c }
commu_made false c = record { error = some no_commu; client = c }

-- `resolves` says of which addresses NewCommu can make a component: it returns nil where one of
-- them cannot be resolved.
module _ (texts : Texts) (resolves : List Text → Bool) where
  abbrev pub servers_loaded : ClientCfg → Client → LoadedServers → Started
  servers_loaded cfg c (invalid s) = record {
    error = some invalid_server_id;
    client = with_fresh c.route_table s c;
  }
  servers_loaded cfg c (complete s) =
      commu_made (resolves s.addrs) (with_fresh (make_route_table cfg.route_entries) s c)

  abbrev pub start_stopped : Option ClientCfg → Client → Started
  start_stopped none c = record { error = some no_cfg; client = c }
  start_stopped (some cfg) c =
      servers_loaded cfg c (load_servers texts cfg.server_entries no_servers)

  abbrev pub start_unless : Bool → Option ClientCfg → Client → Started
  start_unless true cfg c = record { error = some already_started; client = c }
  start_unless false cfg c = start_stopped cfg c

  unfoldable pub start : Option ClientCfg → Client → Started
  start cfg c = start_unless c.is_started cfg c

-- The communication component is stopped, and checkConns told to end.
unfoldable pub stop : Client → Client
stop c = record {
  is_started = false;
  robin_idx = c.robin_idx;
  all_svr_id = c.all_svr_id;
  svr_id_map = c.svr_id_map;
  conn_map = c.conn_map;
  route_table = c.route_table;
  closed_conns = c.closed_conns;
}

unfoldable pub restart : Texts → (List Text → Bool) → Option ClientCfg → Client → Started
restart texts resolves cfg c = start texts resolves cfg (stop c)

unfoldable pub get_conn : Client → ℕ → Option Conn
get_conn c id = lookup c.conn_map id
