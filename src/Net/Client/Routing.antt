-- ===== src/Net/Client/Routing.antt =====
-- component/net/client/client.go: SendMsg.
use common_fw.Common.{
  ℕ, zero, suc, ◌+◌, ◌%◌, Bool, true, false, Option, none, some, List, [], ◌∷◌, leb, ◌==◌,
  if◌then◌else◌, length, Outcome, ok, panic, stuck, Assoc, lookup,
}
use common_fw.Net.Client.{Conn, Client, max_server_num, get_elem?}

pub data RouteType : Type 0 where
  p2p bd rd tm tmn rt rtn : RouteType
  other_type : RouteType

-- The argument by its type: uint32, []byte, or another.
pub data Arg : Type 0 where
  server_id : ℕ → Arg
  hash_key : List ℕ → Arg
  other_arg : Arg

pub data SendError : Type 0 where
  invalid_argument get_conn_failed send_failed all_invalid invalid_route_type : SendError

-- What other goroutines may change while a message is sent: the connections there are, which of
-- them are closed, and robinIdx, which other calls of SendMsg have moved on `moved` times since the
-- look before.
pub record Links : Type 0 where
  pub conn_map : Assoc Conn
  pub is_closed : Conn → Bool
  pub moved : ℕ

-- `exists && !conn.IsClosed()`
unfoldable pub live : Links → ℕ → Option Conn
live l id = elim (lookup l.conn_map id) [
  | none ↦ none
  | some conn ↦ if l.is_closed conn then none else some conn
]

-- What the round robin ends with: robinIdx, and the connection, `none` for the error.
pub record Robin : Type 0 where
  pub next_idx : ℕ
  pub conn : Option Conn

-- `c.robinIdx++`, and back to 0 at the end
unfoldable pub advance : ℕ → ℕ → ℕ
advance n idx = if leb n (idx + 1) then 0 else idx + 1

-- What other calls leave of robinIdx when they have moved it on so many times.
unfoldable pub moved_on : ℕ → ℕ → ℕ → ℕ
moved_on n zero idx = idx
moved_on n (suc m) idx = moved_on n m (advance n idx)

-- The loop. `looks k` has the links at the k-th look: the lock is released in between. Every look
-- before was a failure; `idx` is robinIdx as the look finds it. The fuel is the number of looks left.
unfoldable pub robin_loop : ℕ → List ℕ → (ℕ → Links) → ℕ → ℕ → Outcome Robin
robin_loop zero ids looks idx fails = stuck
robin_loop (suc fuel) ids looks idx fails = elim (get_elem? ids idx) [
  | none ↦ panic
  | some id ↦ elim (live (looks fails) id) [
    | some conn ↦ ok (record { next_idx = advance (length ids) idx; conn = some conn })
    | none ↦ elim (suc fails == length ids) [
      | true ↦ ok (record { next_idx = advance (length ids) idx; conn = none })
      | false ↦
          robin_loop fuel ids looks
            (moved_on (length ids) (looks (suc fails)).moved (advance (length ids) idx)) (suc fails)
    ]
  ]
]

-- The round robin of a client as its first look finds it, whose list of servers stays. One look more than there are servers
-- shows what an empty list does.
unfoldable pub robin : Client → (ℕ → Links) → Outcome Robin
robin c looks = robin_loop (suc (length c.all_svr_id)) c.all_svr_id looks c.robin_idx 0

abbrev pub with_robin_idx : ℕ → Client → Client
with_robin_idx idx c = record {
  is_started = c.is_started;
  robin_idx = idx;
  all_svr_id = c.all_svr_id;
  svr_id_map = c.svr_id_map;
  conn_map = c.conn_map;
  route_table = c.route_table;
  closed_conns = c.closed_conns;
}

-- What SendMsg does: the connections on which SendNormalMsg is called, in order, its error, `none`
-- for nil, and the client it leaves.
pub record Sent : Type 0 where
  pub on : List Conn
  pub error : Option SendError
  pub client : Client

-- `fails conn` says whether SendNormalMsg returns an error on the connection.
module _ (fails : Conn → Bool) (c : Client) where
  abbrev pub send_on : Conn → Sent
  send_on conn = record {
    on = conn ∷ [];
    error = if fails conn then some send_failed else none;
    client = c;
  }

  abbrev pub refuse : SendError → Sent
  refuse e = record { on = []; error = some e; client = c }

  abbrev pub send_to : ℕ → Sent
  send_to id = elim (lookup c.conn_map id) [
    | none ↦ refuse get_conn_failed
    | some conn ↦ send_on conn
  ]

  abbrev pub send_at : ℕ → Outcome Sent
  send_at idx = elim (get_elem? c.all_svr_id idx) [ none ↦ panic | some id ↦ ok (send_to id) ]

  -- `% uint64(0)` is a panic.
  abbrev pub send_modulo : ℕ → Outcome Sent
  send_modulo hash = elim (length c.all_svr_id) [ zero ↦ panic | suc n ↦ send_at (hash % suc n) ]

  abbrev pub send_by_table : ℕ → Outcome Sent
  send_by_table hash = elim (get_elem? c.route_table (hash % max_server_num)) [
    | none ↦ panic
    | some idx ↦ send_at idx
  ]

  -- The loop over connMap: an error is logged, and the loop goes on.
  abbrev pub broadcast_loop : Assoc Conn → List Conn
  broadcast_loop [] = []
  broadcast_loop (e ∷ es) = e.value ∷ broadcast_loop es

abbrev pub send_picked : (Conn → Bool) → Client → Robin → Sent
send_picked fails c r = elim r.conn [
  | none ↦ refuse fails (with_robin_idx r.next_idx c) all_invalid
  | some conn ↦ send_on fails (with_robin_idx r.next_idx c) conn
]

module _ (fails : Conn → Bool) (hash : List ℕ → ℕ) where
  abbrev pub send_keyed : (ℕ → Outcome Sent) → Client → Arg → Outcome Sent
  send_keyed route c (hash_key key) = route (hash key)
  send_keyed route c (server_id id) = ok (refuse fails c invalid_argument)
  send_keyed route c other_arg = ok (refuse fails c invalid_argument)

  -- `looks` has the links that the round robin sees.
  unfoldable pub send_msg : RouteType → Arg → (ℕ → Links) → Client → Outcome Sent
  send_msg p2p (server_id id) looks c = ok (send_to fails c id)
  send_msg p2p (hash_key key) looks c = ok (refuse fails c invalid_argument)
  send_msg p2p other_arg looks c = ok (refuse fails c invalid_argument)
  send_msg bd arg looks c =
      ok (record { on = broadcast_loop fails c c.conn_map; error = none; client = c })
  send_msg rd arg looks c = elim (robin c looks) [
    | ok r ↦ ok (send_picked fails c r)
    | panic ↦ panic
    | stuck ↦ stuck
  ]
  send_msg tm arg looks c = send_keyed (send_modulo fails c) c arg
  send_msg tmn arg looks c = send_keyed (send_modulo fails c) c arg
  send_msg rt arg looks c = send_keyed (send_by_table fails c) c arg
  send_msg rtn arg looks c = send_keyed (send_by_table fails c) c arg
  send_msg other_type arg looks c = ok (refuse fails c invalid_route_type)
