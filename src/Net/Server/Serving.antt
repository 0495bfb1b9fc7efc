-- ===== src/Net/Server/Serving.antt =====
-- component/net/server/server.go: which messages a job hands on.
use common_fw.Common.{
  ℕ, ◌≡◌, refl, Bool, true, false, Option, none, some, List, [], ◌∷◌, ◌++◌, if◌then◌else◌,
  Bool-cases, inl, inr, sym, ◌∙◌, ap, subst, arith,
}
use common_fw.Net.Client.Jobs.{Received}
use common_fw.Net.Server.{
  CmdId, reg, keepalive, other_cmd, Cmd, Server, Addr, Codec, JobEnd, Turn, goes_on, Served,
  check_cmd, check_fields, register_by, Round, stops, passes, alive, hands, msg_round, cmd_round,
  received_round, is_idle, turn_round, after_round, renewed, serve, register, conn_job, reg_msg,
  reg_checked, as_id, fails, Registered, serve_as,
}

-- The messages that are not commands, in the order of the rounds.
abbrev pub message_of : Option Received → List (List ℕ) → List (List ℕ)
message_of none ms = ms
message_of (some r) ms = if r.is_cmd then ms else r.bytes ∷ ms

abbrev pub messages : List Turn → List (List ℕ)
messages [] = []
messages (t ∷ ts) = message_of t.received (messages ts)

module _ (codec : Codec) (s : Server) (addr : Addr) (id : ℕ) (inner : s.is_gateway ≡ false) where
  -- A front of the messages; all of them while the job goes on.
  abbrev Front : Served → List (List ℕ) → Type 0
  Front v ms =
      (rest : List (List ℕ)) × (v.handed_on ++ rest ≡ ms)
      × ((last : ℕ) → v.progress ≡ goes_on last → rest ≡ [])

  -- What a round that does not end the job does with its message.
  abbrev Fits : Round → Option Received → Type 0
  Fits (stops e) o = Unit
  Fits passes o = (ms : List (List ℕ)) → message_of o ms ≡ ms
  Fits alive o = (ms : List (List ℕ)) → message_of o ms ≡ ms
  Fits (hands bytes) o = (ms : List (List ℕ)) → message_of o ms ≡ bytes ∷ ms

  cmd_round-Fits :
      (e : Option JobEnd) (o : Option Received)
      → ((ms : List (List ℕ)) → message_of o ms ≡ ms)
      → Fits (cmd_round codec s addr id e) o
  cmd_round-Fits none o h = h
  cmd_round-Fits (some e) o h = tt

  msg_round-Fits :
      (r : Received) (b : Bool)
      → r.is_cmd ≡ b
      → Fits (msg_round codec s addr id b false r.bytes) (some r)
  msg_round-Fits r true e =
      cmd_round-Fits (check_cmd s keepalive (codec.decode_cmd r.bytes)) (some r) (λ ms. rw e refl)
  msg_round-Fits r false e = λ ms. rw e refl

  received_round-Fits : (o : Option Received) → Fits (received_round codec s addr id o) o
  received_round-Fits none = λ ms. refl
  received_round-Fits (some r) =
      subst (λ g. Fits (msg_round codec s addr id r.is_cmd g r.bytes) (some r)) (sym inner)
        (msg_round-Fits r r.is_cmd refl)

  turn_round-Fits : (last : ℕ) (t : Turn) → Fits (turn_round codec s addr id last t) t.received
  turn_round-Fits last t = elim (Bool-cases t.is_closed) [
    | inl e ↦ rw e tt
    | inr e ↦ elim (Bool-cases (is_idle codec s addr id last t.tick)) [
      | inl f ↦ rw (e, f) tt
      | inr f ↦ rw (e, f) (received_round-Fits t.received)
    ]
  ]

  Fits-Front :
      (r : Round) (o : Option Received) (v : Served) (ms : List (List ℕ))
      → Fits r o
      → Front v ms
      → Front (after_round codec s addr id r v) (message_of o ms)
  Fits-Front (stops e) o v ms f h = (message_of o ms, refl, λ last x. absurd (cc))
  Fits-Front passes o v ms f h = rw (f ms) h
  Fits-Front alive o v ms f h = rw (f ms) h
  Fits-Front (hands bytes) o v ms f h = (h.0, ap (◌∷◌ bytes) h.1 ∙ sym (f ms), h.2)

  serve-Front : (last : ℕ) (ts : List Turn) → Front (serve codec s addr id last ts) (messages ts)
  unfolding serve
  serve-Front last [] = ([], refl, λ l e. refl)
  serve-Front last (t ∷ ts) =
      Fits-Front (turn_round codec s addr id last t) t.received _ (messages ts)
        (turn_round-Fits last t)
        (serve-Front (renewed codec s addr id (turn_round codec s addr id last t) last t.now) ts)

-- Why a connection is registered.
abbrev pub HasRegistered : Codec → Server → Option Received → Type 0
HasRegistered codec s first =
    (r : Received) × (first ≡ some r)
    × (r.is_cmd ≡ true)
    × (m : Cmd) × (codec.decode_cmd r.bytes ≡ some m)
    × (m.cmd ≡ some reg)
    × (m.dst_service_id ≡ some s.server_id)

fields-pass :
    (s : Server) (c : Option CmdId) (dst : Option ℕ)
    → check_fields s reg c dst ≡ none
    → (c ≡ some reg) × (dst ≡ some s.server_id)
fields-pass s none dst e = absurd (cc)
fields-pass s (some reg) none e = absurd (cc)
fields-pass s (some reg) (some d) e = (refl, ap some (ground arith))
fields-pass s (some keepalive) dst e = absurd (cc)
fields-pass s (some other_cmd) dst e = absurd (cc)

-- A registration that gives an id.
checked-pass :
    (s : Server) (m : Cmd) (e : Option JobEnd) (id : ℕ)
    → reg_checked e (some m) ≡ as_id id
    → e ≡ none
checked-pass s m none id h = refl
checked-pass s m (some e) id h = absurd (cc)

cmd-HasRegistered :
    (codec : Codec) (s : Server) (r : Received) (o : Option Cmd) (id : ℕ)
    → r.is_cmd ≡ true
    → codec.decode_cmd r.bytes ≡ o
    → reg_checked (check_cmd s reg o) o ≡ as_id id
    → HasRegistered codec s (some r)
cmd-HasRegistered codec s r none id c e h = absurd (cc)
cmd-HasRegistered codec s r (some m) id c e h =
    let ok = fields-pass s m.cmd m.dst_service_id (checked-pass s m _ id h) in
    (r, refl, c, m, e, ok.0, ok.1)

reg_msg-HasRegistered :
    (codec : Codec) (s : Server) (first : Option Received) (id : ℕ)
    → reg_msg codec s first ≡ as_id id
    → HasRegistered codec s first
reg_msg-HasRegistered codec s none id h = absurd (cc)
reg_msg-HasRegistered codec s (some r) id h = elim (Bool-cases r.is_cmd) [
  | inl e ↦
      let h' = rw e at h in cmd-HasRegistered codec s r (codec.decode_cmd r.bytes) id e refl h'
  | inr e ↦ (let h' = rw e at h in absurd (cc))
]

-- What a job has handed on when it has ended or has done its rounds.
HandsOn : Codec → Server → Option Received → List Turn → Served → Type 0
HandsOn codec s first ts v =
    (rest : List (List ℕ)) × (v.handed_on ++ rest ≡ messages ts)
    × ((last : ℕ) → v.progress ≡ goes_on last → (rest ≡ []) × HasRegistered codec s first)
    × ((bytes : List ℕ) (more : List (List ℕ))
        → v.handed_on ≡ bytes ∷ more
        → HasRegistered codec s first)

serve_as-HandsOn :
    (codec : Codec) (s : Server) (addr : Addr) (first : Option Received) (now : ℕ) (ts : List Turn)
    (x : Registered)
    → s.is_gateway ≡ false
    → reg_msg codec s first ≡ x
    → HandsOn codec s first ts (serve_as codec s addr now ts x)
unfolding HandsOn
serve_as-HandsOn codec s addr first now ts (as_id id) inner e =
    let front = serve-Front codec s addr id inner now ts in
    let has = reg_msg-HasRegistered codec s first id e in
    (front.0, front.1, λ last g. (front.2 last g, has), λ bytes more g. has)
serve_as-HandsOn codec s addr first now ts (fails f) inner e =
    (messages ts, refl, λ last g. absurd (cc), λ bytes more g. absurd (cc))

-- The job of a server that is no gateway hands on a front of the messages that are received, in
-- order and unchanged, commands left out, and all of them as long as it goes on; it goes on or hands
-- something on only if the first message is a command that registers for the server's own id.
pub conn_job-handed_on :
    (codec : Codec) (s : Server) (addr : Addr) (gen_id : ℕ) (first : Option Received) (now : ℕ)
    (ts : List Turn)
    → s.is_gateway ≡ false
    → ((rest : List (List ℕ)) × ((conn_job codec s addr gen_id first now ts).handed_on ++ rest
          ≡ messages ts)
        × ((last : ℕ)
            → (conn_job codec s addr gen_id first now ts).progress ≡ goes_on last
            → (rest ≡ []) × HasRegistered codec s first)
        × ((bytes : List ℕ) (more : List (List ℕ))
            → (conn_job codec s addr gen_id first now ts).handed_on ≡ bytes ∷ more
            → HasRegistered codec s first))
unfolding conn_job register HandsOn
conn_job-handed_on codec s addr gen_id first now ts inner =
    subst
      (λ b.
        HandsOn codec s first ts
          (serve_as codec s addr now ts (register_by b codec s gen_id first)))
      (sym inner) (serve_as-HandsOn codec s addr first now ts (reg_msg codec s first) inner refl)
