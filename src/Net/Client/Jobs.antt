-- ===== src/Net/Client/Jobs.antt =====
-- component/net/client/client.go: connJob and checkConns.
use common_fw.Common.{
  ℕ, Bool, true, false, ◌&&◌, ◌||◌, Option, none, some, List, [], ◌∷◌, ◌==◌, ltb, if◌then◌else◌,
  length, ok, Assoc, Entry, lookup, assign, erase, ◌≡◌, ◌⊎◌,
}
use common_fw.Service.Config.{Text, Texts}
use common_fw.Net.Client.{Conn, Client, ClientCfg, reload_cfg}

abbrev pub with_conn_map : Assoc Conn → Client → Client
with_conn_map m c = record {
  is_started = c.is_started;
  robin_idx = c.robin_idx;
  all_svr_id = c.all_svr_id;
  svr_id_map = c.svr_id_map;
  conn_map = m;
  route_table = c.route_table;
  closed_conns = c.closed_conns;
}

-- The job of a connection: its connection, and the server that it registered it for.
pub record Job : Type 0 where
  pub conn : Conn
  pub id : ℕ

abbrev pub register_as : Option ℕ → Conn → Client → Option (Client × ℕ)
register_as none conn c = none
register_as (some id) conn c = some (with_conn_map (assign c.conn_map id conn) c, id)

-- The job registers its connection by the remote address; `none` for a connection that is not
-- expected.
unfoldable pub register_conn : Text → Conn → Client → Option (Client × ℕ)
register_conn addr conn c = register_as (lookup c.svr_id_map addr) conn c

-- Whether the job tells WaitOK that all connections are there; `waiting` is the length of connOK.
unfoldable pub tells_ok : Client → ℕ → Bool
tells_ok c waiting = (length c.conn_map == length c.all_svr_id) && (waiting == 0)

-- What the deferred functions do when the job ends, after Close.
unfoldable pub unregister_conn : ℕ → Client → Client
unregister_conn id c = with_conn_map (erase c.conn_map id) c

-- A message that has been received: CMD or not, and its bytes.
pub record Received : Type 0 where
  pub is_cmd : Bool
  pub bytes : List ℕ

-- What the job does with a message: it ends; it drops it, or hands it to a filter channel or to
-- the message processor, and goes on.
pub data Handled : Type 0 where
  ends : Handled
  drops : Handled
  to_filter : ℕ → Handled
  to_processor : Handled

-- A channel, `none` for nil.
abbrev pub FilterChans : Type 0
FilterChans = Assoc (Option ℕ)

abbrev pub by_filter : Option (Option ℕ) → Handled
by_filter none = to_processor
by_filter (some none) = to_processor
by_filter (some (some ch)) = to_filter ch

-- `decode` is the message's MsgID, where it has a session header, or an error.
module _ (decode : List ℕ → Option (Option ℕ)) where
  unfoldable pub handle_received : FilterChans → Received → Handled
  handle_received filters r =
      if r.is_cmd
      then ends
      else (if ltb 0 (length filters)
          then elim (decode r.bytes) [
            | none ↦ drops
            | some none ↦ drops
            | some (some msg_id) ↦ by_filter (lookup filters msg_id)
          ]
          else to_processor)

unfoldable pub add_filter_chan : ℕ → Option ℕ → FilterChans → FilterChans
add_filter_chan msg_id ch filters = assign filters msg_id ch

-- The connections that a round of checkConns leaves, and the addresses that it dials.
pub record Checked : Type 0 where
  pub conn_map : Assoc Conn
  pub dialled : List Text

-- `!exists || conn.IsClosed()`
abbrev pub is_lost : (Conn → Bool) → Option Conn → Bool
is_lost is_closed none = true
is_lost is_closed (some conn) = is_closed conn

module _ (is_closed : Conn → Bool) where
  abbrev pub check_server : Entry ℕ → Checked → Checked
  check_server e k =
      if is_lost is_closed (lookup k.conn_map e.value)
      then record { conn_map = erase k.conn_map e.value; dialled = e.key ∷ k.dialled }
      else k

  unfoldable pub check_loop : Assoc ℕ → Checked → Checked
  check_loop [] k = k
  check_loop (e ∷ es) k = check_loop es (check_server e k)

  unfoldable pub check_conns : Client → Checked
  check_conns c = check_loop c.svr_id_map (record { conn_map = c.conn_map; dialled = [] })

-- The client component with the jobs that run, and the connections closed by others.
pub record World : Type 0 where
  pub client : Client
  pub jobs : List Job
  pub hung_up : List Conn

abbrev pub has : List ℕ → ℕ → Bool
has [] x = false
has (y ∷ ys) x = (y == x) || has ys x

unfoldable pub is_closed : World → Conn → Bool
is_closed w conn = has w.client.closed_conns conn || has w.hung_up conn

abbrev pub is_job : Job → Job → Bool
is_job j k = (j.conn == k.conn) && (j.id == k.id)

unfoldable pub remove_job : Job → List Job → List Job
remove_job j [] = []
remove_job j (k ∷ ks) = if is_job j k then ks else k ∷ remove_job j ks

abbrev pub HasJob : List Job → Job → Type 0
HasJob [] j = ⊥
HasJob (k ∷ ks) j = (k ≡ j) ⊎ HasJob ks j

pub data Step : World → World → Type 0 where
  -- A job registers a connection that has just been made.
  registers :
      (w : World) (addr : Text) (conn : Conn) (c' : Client) (id : ℕ)
      → is_closed w conn ≡ false
      → register_conn addr conn w.client ≡ some (c', id)
      → Step w (record {
        client = c';
        jobs = record { conn = conn; id = id } ∷ w.jobs;
        hung_up = w.hung_up;
      })
  -- A connection is closed by its reader or its writer.
  hangs_up :
      (w : World) (conn : Conn)
      → Step w (record { client = w.client; jobs = w.jobs; hung_up = conn ∷ w.hung_up })
  -- A job that finds its connection closed, or gets a CMD message, ends.
  job_ends :
      (w : World) (j : Job)
      → HasJob w.jobs j
      → Step w (record {
        client = unregister_conn j.id w.client;
        jobs = remove_job j w.jobs;
        hung_up = j.conn ∷ w.hung_up;
      })
  checks :
      (w : World)
      → Step w (record {
        client = with_conn_map (check_conns (is_closed w) w.client).conn_map w.client;
        jobs = w.jobs;
        hung_up = w.hung_up;
      })
  reloads :
      (w : World) (texts : Texts) (cfg : Option ClientCfg) (c' : Client)
      → reload_cfg texts cfg w.client ≡ ok c'
      → Step w (record { client = c'; jobs = w.jobs; hung_up = w.hung_up })

pub data Steps : World → World → Type 0 where
  done : (w : World) → Steps w w
  then_step : (w : World) {v u : World} → Step w v → Steps v u → Steps w u
