-- ===== src/Net/Server/Examples.antt =====
-- A job that is registered, kept alive and given a message, and the theorems at it.
use common_fw.Common.{
  ℕ, zero, suc, ◌≢◌, ◌≡◌, ◌↔◌, refl, true, false, Option, none, some, List, [], ◌∷◌, ◌++◌, ◌==◌,
  if◌then◌else◌, length,
}
use common_fw.Net.Client.Jobs.{Received}
use common_fw.Net.Server.{
  CmdId, reg, keepalive, other_cmd, client_cmd, ends, refused, Cmd, Server, Addr, Codec, Turn,
  goes_on, serve, register, conn_job,
}
use common_fw.Net.Server.Serving.{messages, HasRegistered, conn_job-handed_on}
use common_fw.Net.Server.Alive.{IsHealthy, serve-IsHealthy}
use common_fw.Net.Server.Accepting.{sent, OnTime, conn_job-client}

abbrev server : Server
server = record { is_started = true; is_gateway = false; server_id = 20 }

-- One byte registers, more keep alive.
abbrev command : List ℕ → Cmd
command bytes = record {
  cmd = some (if length bytes == 1 then reg else keepalive);
  src_service_id = some 10;
  dst_service_id = some 20;
}

abbrev codec : Codec
codec = record {
  decode_cmd = λ bytes. some (command bytes);
  decode_msg = λ bytes. none;
  has_header = λ m. true;
  encode_msg = λ m h. none;
}

abbrev addr : Addr
addr = record { ip = 10 ∷ 0 ∷ 0 ∷ 1 ∷ []; port = 80 }

abbrev first : Option Received
first = some (record { is_cmd = true; bytes = 1 ∷ [] })

-- A keep-alive at the time 112, and a message with a tick at the time 120.
abbrev turns : List Turn
turns =
    record {
      is_closed = false;
      tick = none;
      received = some (record { is_cmd = true; bytes = 2 ∷ 2 ∷ [] });
      now = 112;
    }
    ∷ record {
      is_closed = false;
      tick = some 120;
      received = some (record { is_cmd = false; bytes = 7 ∷ 8 ∷ [] });
      now = 120;
    }
    ∷ []

conn_job_run :
    conn_job codec server addr 0 first 100 turns
    ≡ record { progress = goes_on 112; handed_on = (7 ∷ 8 ∷ []) ∷ [] }
unfolding conn_job register serve
conn_job_run = refl

conn_job-handed_on_example :
    (rest : List (List ℕ)) × ((conn_job codec server addr 0 first 100 turns).handed_on ++ rest
      ≡ messages turns)
    × ((last : ℕ)
        → (conn_job codec server addr 0 first 100 turns).progress ≡ goes_on last
        → (rest ≡ []) × HasRegistered codec server first)
    × ((bytes : List ℕ) (more : List (List ℕ))
        → (conn_job codec server addr 0 first 100 turns).handed_on ≡ bytes ∷ more
        → HasRegistered codec server first)
conn_job-handed_on_example = conn_job-handed_on codec server addr 0 first 100 turns refl

serve-IsHealthy_example :
    ((end : ℕ) × ((serve codec server addr 10 100 turns).progress ≡ goes_on end))
    ↔ IsHealthy codec server 100 turns
serve-IsHealthy_example = serve-IsHealthy codec server addr 10 100 turns refl

abbrev of_option : Option ℕ → ℕ
of_option none = zero
of_option (some n) = suc n

abbrev to_option : ℕ → Option ℕ
to_option zero = none
to_option (suc n) = some n

abbrev of_id : Option CmdId → ℕ
of_id none = zero
of_id (some reg) = suc zero
of_id (some keepalive) = suc (suc zero)
of_id (some other_cmd) = suc (suc (suc zero))

abbrev to_id : ℕ → Option CmdId
to_id zero = none
to_id (suc zero) = some reg
to_id (suc (suc zero)) = some keepalive
to_id (suc (suc (suc n))) = some other_cmd

abbrev encode : Cmd → List ℕ
encode m = of_id m.cmd ∷ of_option m.src_service_id ∷ of_option m.dst_service_id ∷ []

abbrev decode : List ℕ → Option Cmd
decode (c ∷ src ∷ dst ∷ []) =
    some (record { cmd = to_id c; src_service_id = to_option src; dst_service_id = to_option dst })
decode _ = none

to_option-of_option : (o : Option ℕ) → to_option (of_option o) ≡ o
to_option-of_option none = refl
to_option-of_option (some n) = refl

to_id-of_id : (o : Option CmdId) → to_id (of_id o) ≡ o
to_id-of_id none = refl
to_id-of_id (some reg) = refl
to_id-of_id (some keepalive) = refl
to_id-of_id (some other_cmd) = refl

abbrev own_codec : Codec
own_codec = record {
  decode_cmd = decode;
  decode_msg = λ bytes. none;
  has_header = λ m. true;
  encode_msg = λ m h. none;
}

decode-encode : (m : Cmd) → own_codec.decode_cmd (encode m) ≡ some m
decode-encode m =
    rw
      (
        to_id-of_id m.cmd,
        to_option-of_option m.src_service_id,
        to_option-of_option m.dst_service_id,
      )
      refl

-- A keep-alive at the time 112, and a tick at the time 120.
abbrev kept : List Turn
kept =
    record {
      is_closed = false;
      tick = none;
      received = sent encode (client_cmd keepalive 10 20);
      now = 112;
    }
    ∷ record { is_closed = false; tick = some 120; received = none; now = 120 }
    ∷ []

conn_job-client_example :
    (20 ≡ server.server_id
      → OnTime encode 10 20 100 kept
      → (end : ℕ) × ((conn_job own_codec server addr 0
            (sent encode (client_cmd reg 10 20))
            100
            kept).progress
          ≡ goes_on end))
    × (20 ≢ server.server_id
        → conn_job own_codec server addr 0 (sent encode (client_cmd reg 10 20)) 100 kept
          ≡ record { progress = ends refused; handed_on = [] })
conn_job-client_example =
    conn_job-client encode own_codec decode-encode server refl addr 0 10 20 100 kept
