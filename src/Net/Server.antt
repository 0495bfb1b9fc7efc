-- ===== src/Net/Server.antt =====
-- component/net/server/server.go: the job of a connection, Start, and the network header.
pub mod Serving
pub mod Alive
pub mod Accepting
mod Examples
use common_fw.Common.{
  ℕ, ◌+◌, ◌-◌, ◌*◌, ◌^◌, Bool, true, false, not, ◌&&◌, Option, none, some, List, [], ◌∷◌, ltb, ◌==◌,
  if◌then◌else◌,
}
use common_fw.Service.Config.{Text, Texts, convert_server_id_string_to_number}
use common_fw.Net.Client.Jobs.{Received}

pub data CmdId : Type 0 where
  reg keepalive other_cmd : CmdId

-- A CmdMsg; a nil field is `none`.
pub record Cmd : Type 0 where
  pub cmd : Option CmdId
  pub src_service_id : Option ℕ
  pub dst_service_id : Option ℕ

-- The commands that the job of a client's connection sends (component/net/client/client.go).
abbrev pub client_cmd : CmdId → ℕ → ℕ → Cmd
client_cmd id client_id server_id = record {
  cmd = some id;
  src_service_id = some client_id;
  dst_service_id = some server_id;
}

-- The fields that Start sets.
pub record Server : Type 0 where
  pub is_started : Bool
  pub is_gateway : Bool
  pub server_id : ℕ

-- The header for a message of a gateway's client; Cmd is nil.
pub record NetHeader : Type 0 where
  pub service_id : ℕ
  pub session_id : ℕ
  pub client_ip : ℕ
  pub client_port : ℕ

-- A remote address as RemoteAddr gives it: what To4 makes of the IP, and the port.
pub record Addr : Type 0 where
  pub ip : List ℕ
  pub port : ℕ

-- `none` is an index out of range: To4 gives nil for an IP that is not version 4. Bytes that are
-- shifted apart are added.
abbrev pub ip_number : List ℕ → Option ℕ
ip_number (a ∷ b ∷ c ∷ d ∷ _) = some (a * 2 ^ 24 + b * 2 ^ 16 + c * 2 ^ 8 + d)
ip_number _ = none

unfoldable pub gen_net_head1 : Server → Addr → ℕ → Option NetHeader
gen_net_head1 s addr conn_id = elim (ip_number addr.ip) [
  | none ↦ none
  | some n ↦ some (record {
    service_id = s.server_id;
    session_id = conn_id;
    client_ip = n;
    client_port = addr.port;
  })
]

-- proto.Unmarshal and proto.Marshal. A message is what its body is; `header` says whether it has a
-- header.
pub record Codec : Type 0 where
  pub decode_cmd : List ℕ → Option Cmd
  pub decode_msg : List ℕ → Option ℕ
  pub has_header : ℕ → Bool
  pub encode_msg : ℕ → NetHeader → Option (List ℕ)

pub data JobEnd : Type 0 where
  refused closed idle bad_msg : JobEnd
  crashes : JobEnd

-- A round of the message loop: whether the connection is closed, the time when the ticker has
-- ticked, the message that is received, and the time of a keep-alive.
pub record Turn : Type 0 where
  pub is_closed : Bool
  pub tick : Option ℕ
  pub received : Option Received
  pub now : ℕ

-- How far a job has come: it goes on with the time of the last keep-alive, or it has ended. With it
-- what has been handed to OnNewMsg, in order.
pub data Progress : Type 0 where
  goes_on : ℕ → Progress
  ends : JobEnd → Progress

pub record Served : Type 0 where
  pub progress : Progress
  pub handed_on : List (List ℕ)

abbrev pub max_idle_time : ℕ
max_idle_time = 15

-- `*cmd.Cmd != id`, `*cmd.DstServiceID != s.serverId`: a nil field is a panic.
abbrev pub same_cmd : CmdId → CmdId → Bool
same_cmd reg reg = true
same_cmd keepalive keepalive = true
same_cmd _ _ = false

abbrev pub check_dst : Server → Option ℕ → Option JobEnd
check_dst s none = some crashes
check_dst s (some dst) = if dst == s.server_id then none else some refused

abbrev pub check_fields : Server → CmdId → Option CmdId → Option ℕ → Option JobEnd
check_fields s id none dst = some crashes
check_fields s id (some c) dst = if same_cmd c id then check_dst s dst else some refused

-- A command, decoded: why it is refused.
abbrev pub check_cmd : Server → CmdId → Option Cmd → Option JobEnd
check_cmd s id none = some refused
check_cmd s id (some m) = check_fields s id m.cmd m.dst_service_id

-- What a round does: it ends the job, goes on, or hands a message on.
pub data Round : Type 0 where
  stops : JobEnd → Round
  passes : Round
  alive : Round
  hands : List ℕ → Round

module _ (codec : Codec) (s : Server) (addr : Addr) (conn_id : ℕ) where
  abbrev pub with_header : ℕ → Option NetHeader → Round
  with_header m none = stops crashes
  with_header m (some h) =
      if codec.has_header m
      then elim (codec.encode_msg m h) [ none ↦ stops bad_msg | some bytes ↦ hands bytes ]
      else stops crashes

  abbrev pub gateway_msg : Option ℕ → Round
  gateway_msg none = stops bad_msg
  gateway_msg (some m) = with_header m (gen_net_head1 s addr conn_id)

  abbrev pub cmd_round : Option JobEnd → Round
  cmd_round none = alive
  cmd_round (some e) = stops e

  abbrev pub msg_round : Bool → Bool → List ℕ → Round
  msg_round true true bytes = stops bad_msg
  msg_round true false bytes = cmd_round (check_cmd s keepalive (codec.decode_cmd bytes))
  msg_round false true bytes = gateway_msg (codec.decode_msg bytes)
  msg_round false false bytes = hands bytes

  abbrev pub received_round : Option Received → Round
  received_round none = passes
  received_round (some r) = msg_round r.is_cmd s.is_gateway r.bytes

  abbrev pub is_idle : ℕ → Option ℕ → Bool
  is_idle last none = false
  is_idle last (some now) = not s.is_gateway && ltb max_idle_time (now - last)

  abbrev pub turn_round : ℕ → Turn → Round
  turn_round last t =
      if t.is_closed
      then stops closed
      else (if is_idle last t.tick then stops idle else received_round t.received)

  abbrev pub hand_on : List ℕ → Served → Served
  hand_on bytes v = record { progress = v.progress; handed_on = bytes ∷ v.handed_on }

  abbrev pub after_round : Round → Served → Served
  after_round (stops e) rest = record { progress = ends e; handed_on = [] }
  after_round passes rest = rest
  after_round alive rest = rest
  after_round (hands bytes) rest = hand_on bytes rest

  abbrev pub renewed : Round → ℕ → ℕ → ℕ
  renewed (stops e) last now = last
  renewed passes last now = last
  renewed alive last now = now
  renewed (hands bytes) last now = last

  -- The message loop, from the time of the last keep-alive.
  unfoldable pub serve : ℕ → List Turn → Served
  serve last [] = record { progress = goes_on last; handed_on = [] }
  serve last (t ∷ ts) =
      let round = turn_round last t in
      let rest = serve (renewed round last t.now) ts in after_round round rest

-- The registration of a connection that is not a gateway's: the id that SetId gets, or the end.
pub data Registered : Type 0 where
  as_id : ℕ → Registered
  fails : JobEnd → Registered

abbrev pub reg_src : Option ℕ → Registered
reg_src none = fails crashes
reg_src (some src) = as_id src

abbrev pub reg_checked : Option JobEnd → Option Cmd → Registered
reg_checked (some e) m = fails e
reg_checked none none = fails refused
reg_checked none (some m) = reg_src m.src_service_id

abbrev pub reg_msg : Codec → Server → Option Received → Registered
reg_msg codec s none = fails refused
reg_msg codec s (some r) =
    if r.is_cmd
    then reg_checked (check_cmd s reg (codec.decode_cmd r.bytes)) (codec.decode_cmd r.bytes)
    else fails refused

-- A gateway's connection gets an id from the generator.
abbrev pub register_by : Bool → Codec → Server → ℕ → Option Received → Registered
register_by true codec s gen_id first = as_id gen_id
register_by false codec s gen_id first = reg_msg codec s first

unfoldable pub register : Codec → Server → ℕ → Option Received → Registered
register codec s gen_id first = register_by s.is_gateway codec s gen_id first

abbrev pub serve_as : Codec → Server → Addr → ℕ → List Turn → Registered → Served
serve_as codec s addr now ts (as_id id) = serve codec s addr id now ts
serve_as codec s addr now ts (fails e) = record { progress = ends e; handed_on = [] }

-- connJob of a connection manager that has its channels; `now` is the time behind the registration.
unfoldable pub conn_job : Codec → Server → Addr → ℕ → Option Received → ℕ → List Turn → Served
conn_job codec s addr gen_id first now ts =
    serve_as codec s addr now ts (register codec s gen_id first)

pub record ServerCfg : Type 0 where
  pub id : Text
  pub is_gateway : Option Bool
  pub addrs : List Text

pub data StartError : Type 0 where
  already_started no_cfg invalid_id no_gateway no_commu : StartError

pub record Started : Type 0 where
  pub error : Option StartError
  pub server : Server

abbrev pub commu_made : Bool → Bool → ℕ → Server → Started
commu_made true gateway id s = record {
  error = none;
  server = record { is_started = true; is_gateway = gateway; server_id = id };
}
commu_made false gateway id s = record {
  error = some no_commu;
  server = record { is_started = s.is_started; is_gateway = gateway; server_id = id };
}

abbrev pub start_with : (List Text → Bool) → List Text → Option ℕ → Option Bool → Server → Started
start_with resolves addrs none gateway s = record { error = some invalid_id; server = s }
start_with resolves addrs (some id) none s = record {
  error = some no_gateway;
  server = record { is_started = s.is_started; is_gateway = s.is_gateway; server_id = id };
}
start_with resolves addrs (some id) (some gateway) s = commu_made (resolves addrs) gateway id s

abbrev pub start_cfg : Texts → (List Text → Bool) → Option ServerCfg → Server → Started
start_cfg texts resolves none s = record { error = some no_cfg; server = s }
start_cfg texts resolves (some cfg) s =
    start_with resolves cfg.addrs (convert_server_id_string_to_number texts cfg.id) cfg.is_gateway s

unfoldable pub start : Texts → (List Text → Bool) → Option ServerCfg → Server → Started
start texts resolves cfg s =
    if s.is_started
    then record { error = some already_started; server = s }
    else start_cfg texts resolves cfg s

unfoldable pub stop : Server → Server
stop s = record { is_started = false; is_gateway = s.is_gateway; server_id = s.server_id }

unfoldable pub restart : Texts → (List Text → Bool) → Option ServerCfg → Server → Started
restart texts resolves cfg s = start texts resolves cfg (stop s)
