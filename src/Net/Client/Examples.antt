-- ===== src/Net/Client/Examples.antt =====
-- A client of three servers, and the theorems at it.
use common_fw.Common.{
  ℕ, ◌≤◌, ◌<◌, ◌≡◌, refl, Bool, true, false, List, [], ◌∷◌, none, some, ok, panic, pos, length,
  lookup, arith, ◌==◌, inl,
}
use common_fw.Service.Config.{Texts, convert_server_id_string_to_number}
use common_fw.Net.Client.{
  Conn, Client, ClientCfg, RouteEntry, get_elem?, make_route_table, load_servers, reload_cfg, start,
  close_gone, close_server,
}
use common_fw.Net.Client.Routing.{
  Links, live, Sent, rd, other_arg, Arg, robin, robin_loop, advance, moved_on, send_msg,
}
use common_fw.Net.Client.Fair.{Serves, robin-Serves}
use common_fw.Net.Client.Table.{last_idx, make_route_table_lem}
use common_fw.Net.Client.Safe.{IsInRange, send_msg-IsInRange}
use common_fw.Net.Client.Reload.{reload_cfg-robin, start-IsInRange}
use common_fw.Net.Client.Jobs.{World, Step, HasJob, is_closed}
use common_fw.Net.Client.Registry.{
  IsServed, hung_world, checked_world, registered_world, ended_world, Steps-strays,
}

abbrev client : Client
client = record {
  is_started = true;
  robin_idx = 1;
  all_svr_id = 10 ∷ 20 ∷ 30 ∷ [];
  svr_id_map =
      record { key = 1; value = 10 }
      ∷ record { key = 2; value = 20 }
      ∷ record { key = 3; value = 30 }
      ∷ [];
  conn_map = record { key = 10; value = 7 } ∷ record { key = 30; value = 9 } ∷ [];
  route_table = [];
  closed_conns = [];
}

-- Server 20 has no connection, and the connection of server 30 is closed.
abbrev links : Links
links = record {
  conn_map = record { key = 10; value = 7 } ∷ record { key = 30; value = 9 } ∷ [];
  is_closed = λ conn. conn == 9;
  moved = 0;
}

-- Another call has looked at a server in between.
abbrev disturbed : Links
disturbed = record { conn_map = links.conn_map; is_closed = links.is_closed; moved = 1 }

robin_run : robin client (λ k. links) ≡ ok (record { next_idx = 1; conn = some 7 })
unfolding robin robin_loop advance moved_on live get_elem?
robin_run = refl

-- Two servers of which the second is up; another call looks at one in between: the error.
robin_misses :
    robin (record client { robin_idx = 0; all_svr_id = 20 ∷ 10 ∷ [] }) (λ k. disturbed)
    ≡ ok (record { next_idx = 1; conn = none })
unfolding robin robin_loop advance moved_on live get_elem?
robin_misses = refl

robin-Serves_example : Serves (λ t k. links) 7 3 0 client
unfolding get_elem? live
robin-Serves_example =
    robin-Serves (λ t k. links) client 0 10 7 (omega arith) (omega arith) refl (λ t k. refl)
      (λ t k. refl)

abbrev routes : List RouteEntry
routes =
    record { hash_begin = 0; hash_end = 300; server_idx = 1 }
    ∷ record { hash_begin = 200; hash_end = 900; server_idx = 0 }
    ∷ []

make_route_table_lem_example :
    (length (make_route_table routes) ≡ 512)
    × ((h : ℕ) → h < 512 → get_elem? (make_route_table routes) h ≡ some (last_idx routes h 0))
make_route_table_lem_example = make_route_table_lem routes

-- The text `n` reads "0.n".
abbrev numbered : Texts
numbered = record { split = λ s. 0 ∷ s ∷ []; atoi = λ s. some (pos s) }

abbrev cfg : ClientCfg
cfg = record {
  server_entries = record { id = 10; addrs = 1 ∷ 4 ∷ [] } ∷ record { id = 20; addrs = 2 ∷ [] } ∷ [];
  route_entries = routes;
}

abbrev stopped : Client
stopped = record {
  is_started = false;
  robin_idx = 0;
  all_svr_id = [];
  svr_id_map = [];
  conn_map = [];
  route_table = [];
  closed_conns = [];
}

abbrev started : Client
started = record {
  is_started = true;
  robin_idx = 0;
  all_svr_id = 10 ∷ 20 ∷ [];
  svr_id_map =
      record { key = 1; value = 10 }
      ∷ record { key = 4; value = 10 }
      ∷ record { key = 2; value = 20 }
      ∷ [];
  conn_map = [];
  route_table = make_route_table routes;
  closed_conns = [];
}

start_run :
    start numbered (λ addrs. true) (some cfg) stopped ≡ record { error = none; client = started }
unfolding start load_servers convert_server_id_string_to_number
start_run = refl

abbrev reloaded : Client
reloaded = record {
  is_started = true;
  robin_idx = 2;
  all_svr_id = 10 ∷ 20 ∷ [];
  svr_id_map =
      record { key = 1; value = 10 }
      ∷ record { key = 4; value = 10 }
      ∷ record { key = 2; value = 20 }
      ∷ [];
  conn_map = record { key = 10; value = 7 } ∷ [];
  route_table = make_route_table routes;
  closed_conns = 9 ∷ [];
}

-- Three servers, of which the third was the next.
abbrev third_next : Client
third_next = record {
  is_started = true;
  robin_idx = 2;
  all_svr_id = 10 ∷ 20 ∷ 30 ∷ [];
  svr_id_map = record { key = 1; value = 10 } ∷ record { key = 3; value = 30 } ∷ [];
  conn_map = record { key = 10; value = 7 } ∷ record { key = 30; value = 9 } ∷ [];
  route_table = [];
  closed_conns = [];
}

reload_run : reload_cfg numbered (some cfg) third_next ≡ ok reloaded
unfolding reload_cfg load_servers convert_server_id_string_to_number close_gone close_server
reload_run = refl

reload_cfg-robin_example :
    (reloaded.robin_idx ≡ third_next.robin_idx)
    × (2 < 2 → IsInRange reloaded)
    × (2 ≤ 2
        → (fails : Conn → Bool) (hash : List ℕ → ℕ) (arg : Arg) (looks : ℕ → Links)
        → send_msg fails hash rd arg looks reloaded ≡ panic)
reload_cfg-robin_example =
    reload_cfg-robin numbered cfg third_next reloaded (omega arith, (omega arith, tt)) reload_run

started-IsInRange : IsInRange started
started-IsInRange =
    start-IsInRange numbered (λ addrs. true) cfg stopped started (omega arith, (omega arith, tt))
      start_run (omega arith)

send_msg-IsInRange_example :
    (s : Sent) × (send_msg (λ conn. false) (λ key. 700) rd other_arg (λ k. links) started ≡ ok s)
    × IsInRange s.client
send_msg-IsInRange_example =
    send_msg-IsInRange (λ conn. false) (λ key. 700) rd other_arg (λ k. links) started
      started-IsInRange

abbrev world : World
world = record {
  client = client;
  jobs = record { conn = 7; id = 10 } ∷ record { conn = 9; id = 30 } ∷ [];
  hung_up = [];
}

world-IsServed : IsServed world
unfolding IsServed
world-IsServed = λ id conn e. ground arith

abbrev hung : World
hung = hung_world world 7

abbrev back : World
back = registered_world (checked_world hung) 10 8

abbrev ended : World
ended = ended_world back (record { conn = 7; id = 10 })

Steps-strays_example :
    Step world hung
    × Step hung (checked_world hung)
    × Step (checked_world hung) back
    × (lookup back.client.conn_map 10 ≡ some 8)
    × Step back ended
    × HasJob ended.jobs (record { conn = 8; id = 10 })
    × (is_closed ended 8 ≡ false)
    × (lookup ended.client.conn_map 10 ≡ none)
unfolding is_closed
Steps-strays_example = Steps-strays world 1 10 7 8 refl (inl refl) (λ e. absurd (omega arith)) refl
