-- ===== src/Service/Connections.antt =====
-- framework/base/connmng.go: the table of connections; and what a connection's job, Server.connJob of
-- component/net/server/server.go, tells it.
pub mod Listening
mod Examples
use common_fw.Common.{
  ℕ, ◌<◌, ◌≡◌, Bool, true, false, Option, none, some, List, [], ◌∷◌, ◌++◌, ◌==◌, if◌then◌else◌,
  length, Map, empty_map, put, remove,
}

-- A connection has a number of its own; its id, which SetId gives it, may be another's too.
pub record ConnMng : Type 0 where
  pub inited : Bool
  pub conns : Map ℕ

abbrev pub new_conn_mng : ConnMng
new_conn_mng = record { inited = false; conns = empty_map }

pub data InitError : Type 0 where
  already_inited logger_is_nil : InitError

unfoldable pub init : Bool → ConnMng → Option InitError × ConnMng
init has_logger m =
    if m.inited
    then (some already_inited, m)
    else (if has_logger
        then (none, record { inited = true; conns = empty_map })
        else (some logger_is_nil, m))

unfoldable pub get_conn : ℕ → ConnMng → Option ℕ
get_conn sid m = if m.inited then m.conns sid else none

-- The two cases of Listen, on a connection with an id.
unfoldable pub on_new_conn : ℕ → ℕ → ConnMng → ConnMng
on_new_conn id conn m = record { inited = m.inited; conns = put m.conns id conn }

unfoldable pub on_dis_conn : ℕ → ConnMng → ConnMng
on_dis_conn id m = record { inited = m.inited; conns = remove m.conns id }

-- What has become of a connection: its job has not sent it to newConnChan; it has; it has set the
-- callback, too; the connection has been closed since and is in disConnChan; Listen has received it
-- from there; or it was closed before it had a callback.
pub data Phase : Type 0 where
  absent connected watched leaving gone forgotten : Phase

pub record World : Type 0 where
  pub conn_mng : ConnMng
  pub dis_conn_chan : List ℕ
  pub phases : ℕ → Phase

abbrev pub set_phase : ℕ → Phase → (ℕ → Phase) → ℕ → Phase
set_phase c x f d = if d == c then x else f d

abbrev pub dis_conn_size : ℕ
dis_conn_size = 100

module _ (id_of : ℕ → ℕ) where
  pub data Step : World → World → Type 0 where
    -- newConnChan has no buffer: a send is a receive.
    registers :
        (w : World) (c : ℕ)
        → w.phases c ≡ absent
        → Step w (record {
          conn_mng = on_new_conn (id_of c) c w.conn_mng;
          dis_conn_chan = w.dis_conn_chan;
          phases = set_phase c connected w.phases;
        })
    sets_callback :
        (w : World) (c : ℕ)
        → w.phases c ≡ connected
        → Step w (record w { phases = set_phase c watched w.phases })
    -- closeNow calls the callback, which waits while disConnChan is full.
    closes :
        (w : World) (c : ℕ)
        → w.phases c ≡ watched
        → length w.dis_conn_chan < dis_conn_size
        → Step w (record {
          conn_mng = w.conn_mng;
          dis_conn_chan = w.dis_conn_chan ++ (c ∷ []);
          phases = set_phase c leaving w.phases;
        })
    -- The connection may also be closed before its registration, which is sent all the same.
    closes_early :
        (w : World) (c : ℕ)
        → w.phases c ≡ connected
        → Step w (record w { phases = set_phase c forgotten w.phases })
    listens :
        (w : World) (c : ℕ) (rest : List ℕ)
        → w.dis_conn_chan ≡ c ∷ rest
        → Step w (record {
          conn_mng = on_dis_conn (id_of c) w.conn_mng;
          dis_conn_chan = rest;
          phases = set_phase c gone w.phases;
        })

  pub data Steps : World → World → Type 0 where
    done : (w : World) → Steps w w
    then_step : {w v u : World} → Step w v → Steps v u → Steps w u

abbrev pub at_first : World
at_first = record {
  conn_mng = (init true new_conn_mng).1;
  dis_conn_chan = [];
  phases = λ c. absent;
}

-- Whether a connection is in the table.
abbrev pub is_listed : Phase → Bool
is_listed absent = false
is_listed gone = false
is_listed _ = true
