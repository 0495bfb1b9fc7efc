-- ===== src/Net/Server/Alive.antt =====
-- component/net/server/server.go: how long a job goes on.
use common_fw.Common.{
  ℕ, ◌+◌, ◌≤◌, ◌≡◌, ◌≢◌, ◌↔◌, ◌⊎◌, refl, Bool, true, false, Option, none, some, List, [], ◌∷◌,
  Bool-cases, inl, inr, sym, ◌∙◌, ap, subst, arith,
}
use common_fw.Net.Client.Jobs.{Received}
use common_fw.Net.Server.{
  CmdId, reg, keepalive, other_cmd, Cmd, Server, Addr, Codec, JobEnd, closed, idle, Turn, goes_on,
  Served, check_cmd, check_fields, Round, stops, passes, alive, hands, msg_round, cmd_round,
  received_round, is_idle, turn_round, after_round, renewed, serve,
}

-- A tick comes at most 15 seconds after the last keep-alive.
abbrev pub InTime : ℕ → Option ℕ → Type 0
InTime last tick = (now : ℕ) → tick ≡ some now → now ≤ last + 15

-- A keep-alive command for the server's own id.
abbrev pub IsKeepalive : Codec → Server → Option Received → Type 0
IsKeepalive codec s o =
    (r : Received) × (o ≡ some r)
    × (r.is_cmd ≡ true)
    × (m : Cmd) × (codec.decode_cmd r.bytes ≡ some m)
    × (m.cmd ≡ some keepalive)
    × (m.dst_service_id ≡ some s.server_id)

abbrev pub IsNoCommand : Option Received → Type 0
IsNoCommand o = (r : Received) → o ≡ some r → r.is_cmd ≡ false

-- The connection stays open, the ticks come in time, and the only commands are keep-alives.
unfoldable pub IsHealthy : Codec → Server → ℕ → List Turn → Type 0
IsHealthy codec s last [] = Unit
IsHealthy codec s last (t ∷ ts) =
    (t.is_closed ≡ false)
    × InTime last t.tick
    × ((IsKeepalive codec s t.received × IsHealthy codec s t.now ts)
        ⊎ (IsNoCommand t.received × IsHealthy codec s last ts))

fields-keepalive :
    (s : Server) (c : Option CmdId) (dst : Option ℕ)
    → check_fields s keepalive c dst ≡ none
    → (c ≡ some keepalive) × (dst ≡ some s.server_id)
fields-keepalive s none dst e = absurd (cc)
fields-keepalive s (some keepalive) none e = absurd (cc)
fields-keepalive s (some keepalive) (some d) e = (refl, ap some (ground arith))
fields-keepalive s (some reg) dst e = absurd (cc)
fields-keepalive s (some other_cmd) dst e = absurd (cc)

keepalive-fields :
    (s : Server) (c : Option CmdId) (dst : Option ℕ)
    → c ≡ some keepalive
    → dst ≡ some s.server_id
    → check_fields s keepalive c dst ≡ none
keepalive-fields s c dst e f = rw (e, f) (ground arith)

module _ (codec : Codec) (s : Server) (addr : Addr) (id : ℕ) (inner : s.is_gateway ≡ false) where
  -- What a round means for a message.
  abbrev Means : Round → Option Received → Type 0
  Means (stops e) o = Unit
  Means alive o = IsKeepalive codec s o
  Means passes o = IsNoCommand o
  Means (hands bytes) o = IsNoCommand o

  cmd-Means :
      (r : Received) (m : Option Cmd) (e : Option JobEnd)
      → r.is_cmd ≡ true
      → codec.decode_cmd r.bytes ≡ m
      → check_cmd s keepalive m ≡ e
      → Means (cmd_round codec s addr id e) (some r)
  cmd-Means r m (some e) c d k = tt
  cmd-Means r none none c d k = absurd (cc)
  cmd-Means r (some m) none c d k =
      let ok = fields-keepalive s m.cmd m.dst_service_id k in (r, refl, c, m, d, ok.0, ok.1)

  msg-Means :
      (r : Received) (b : Bool)
      → r.is_cmd ≡ b
      → Means (msg_round codec s addr id b false r.bytes) (some r)
  msg-Means r true e = cmd-Means r (codec.decode_cmd r.bytes) _ e refl refl
  msg-Means r false e =
      λ x f. (let same : r ≡ x = cc in ap (λ (y : Received). y.is_cmd) (sym same) ∙ e)

  received-Means : (o : Option Received) → Means (received_round codec s addr id o) o
  received-Means none = λ r e. absurd (cc)
  received-Means (some r) =
      subst (λ g. Means (msg_round codec s addr id r.is_cmd g r.bytes) (some r)) (sym inner)
        (msg-Means r r.is_cmd refl)

  is_idle-InTime :
      (last : ℕ) (o : Option ℕ) → is_idle codec s addr id last o ≡ false → InTime last o
  is_idle-InTime last none e = λ now f. absurd (cc)
  is_idle-InTime last (some n) e = λ now f. (let same : n ≡ now = cc in ground arith)

  InTime-is_idle :
      (last : ℕ) (o : Option ℕ) → InTime last o → is_idle codec s addr id last o ≡ false
  InTime-is_idle last none h = refl
  InTime-is_idle last (some n) h = (let k = h n refl in ground arith)

  open_turn :
      (last : ℕ) (t : Turn) (r : Round)
      → turn_round codec s addr id last t ≡ r
      → ((e : JobEnd) × (r ≡ stops e))
        ⊎ ((t.is_closed ≡ false) × InTime last t.tick × Means r t.received)
  open_turn last t r h = elim (Bool-cases t.is_closed) [
    | inl e ↦ (let h' = rw e at h in inl (closed, sym h'))
    | inr e ↦ elim (Bool-cases (is_idle codec s addr id last t.tick)) [
      | inl f ↦ (let h' = rw (e, f) at h in inl (idle, sym h'))
      | inr f ↦
          let h' = rw (e, f) at h in
          inr (
            e,
            is_idle-InTime last t.tick f,
            subst (λ x. Means x t.received) h' (received-Means t.received),
          )
    ]
  ]

  live_turn :
      (last : ℕ) (t : Turn) (r : Round)
      → turn_round codec s addr id last t ≡ r
      → ((e : JobEnd) → r ≢ stops e)
      → (t.is_closed ≡ false) × InTime last t.tick × Means r t.received
  live_turn last t r h never = elim (open_turn last t r h) [
    | inl stop ↦ absurd (never stop.0 stop.1)
    | inr live ↦ live
  ]

  run-IsHealthy :
      (last : ℕ) (ts : List Turn) (end : ℕ)
      → (serve codec s addr id last ts).progress ≡ goes_on end
      → IsHealthy codec s last ts
  unfolding serve IsHealthy
  run-IsHealthy last [] end h = tt
  run-IsHealthy last (t ∷ ts) end h =
      round_healthy (turn_round codec s addr id last t) refl (λ l g. run-IsHealthy l ts end g) h
    where
      round_healthy :
          (r : Round)
          → turn_round codec s addr id last t ≡ r
          → ((l : ℕ) → (serve codec s addr id l ts).progress ≡ goes_on end → IsHealthy codec s l ts)
          → (after_round codec s addr id r
              (serve codec s addr id (renewed codec s addr id r last t.now) ts)).progress
            ≡ goes_on end
          → (t.is_closed ≡ false)
            × InTime last t.tick
            × ((IsKeepalive codec s t.received × IsHealthy codec s t.now ts)
                ⊎ (IsNoCommand t.received × IsHealthy codec s last ts))
      round_healthy (stops x) e rest g = absurd (cc)
      round_healthy alive e rest g =
          let live = live_turn last t alive e (λ x f. absurd (cc)) in
          (live.0, live.1, inl (live.2, rest t.now g))
      round_healthy passes e rest g =
          let live = live_turn last t passes e (λ x f. absurd (cc)) in
          (live.0, live.1, inr (live.2, rest last g))
      round_healthy (hands bytes) e rest g =
          let live = live_turn last t (hands bytes) e (λ x f. absurd (cc)) in
          (live.0, live.1, inr (live.2, rest last g))

  healthy_turn :
      (last : ℕ) (t : Turn)
      → t.is_closed ≡ false
      → InTime last t.tick
      → turn_round codec s addr id last t ≡ received_round codec s addr id t.received
  healthy_turn last t e h = rw (e, InTime-is_idle last t.tick h) refl

  keepalive_round :
      (o : Option Received) → IsKeepalive codec s o → received_round codec s addr id o ≡ alive
  keepalive_round none h = (let e = h.1 in absurd (cc))
  keepalive_round (some r) h =
      let same : r ≡ h.0 = (let e = h.1 in cc) in
      let is_cmd : r.is_cmd ≡ true = ap (λ (y : Received). y.is_cmd) same ∙ h.2 in
      let decoded : codec.decode_cmd r.bytes ≡ some (h.3) =
        ap (λ (y : Received). codec.decode_cmd y.bytes) same ∙ h.4 in
      ap (λ b. msg_round codec s addr id b s.is_gateway r.bytes) is_cmd
      ∙ (ap (λ g. msg_round codec s addr id true g r.bytes) inner
          ∙ (ap (λ m. cmd_round codec s addr id (check_cmd s keepalive m)) decoded
              ∙ ap (cmd_round codec s addr id)
                  (keepalive-fields s (h.3).cmd (h.3).dst_service_id h.5 h.6)))

  -- A round without a command keeps the time, and goes on.
  quiet_round :
      (o : Option Received) (v : Served) (l : ℕ) (now : ℕ)
      → IsNoCommand o
      → (renewed codec s addr id (received_round codec s addr id o) l now ≡ l)
        × ((after_round codec s addr id (received_round codec s addr id o) v).progress ≡ v.progress)
  quiet_round none v l now h = (refl, refl)
  quiet_round (some r) v l now h =
      let round : received_round codec s addr id (some r) ≡ hands r.bytes =
        ap (λ b. msg_round codec s addr id b s.is_gateway r.bytes) (h r refl)
        ∙ ap (λ g. msg_round codec s addr id false g r.bytes) inner in
      (
        ap (λ x. renewed codec s addr id x l now) round,
        ap (λ x. (after_round codec s addr id x v).progress) round,
      )

  IsHealthy-run :
      (last : ℕ) (ts : List Turn)
      → IsHealthy codec s last ts
      → (end : ℕ) × ((serve codec s addr id last ts).progress ≡ goes_on end)
  unfolding serve IsHealthy
  IsHealthy-run last [] h = (last, refl)
  IsHealthy-run last (t ∷ ts) (e, i, inl k) =
      let rest = IsHealthy-run t.now ts k.1 in
      let round = healthy_turn last t e i ∙ keepalive_round t.received k.0 in
      (rest.0, rw (round, serve) rest.1)
  IsHealthy-run last (t ∷ ts) (e, i, inr k) =
      let rest = IsHealthy-run last ts k.1 in
      let round = healthy_turn last t e i in
      let quiet = quiet_round t.received (serve codec s addr id last ts) last t.now k.0 in
      (rest.0, rw (round, quiet.0, quiet.1, serve) rest.1)

-- The job of a server that is no gateway goes on exactly as long as the connection stays open,
-- every tick comes at most 15 seconds after the last keep-alive, and the only commands are
-- keep-alives for the server's own id.
pub serve-IsHealthy :
    (codec : Codec) (s : Server) (addr : Addr) (id : ℕ) (last : ℕ) (ts : List Turn)
    → s.is_gateway ≡ false
    → ((end : ℕ) × ((serve codec s addr id last ts).progress ≡ goes_on end))
      ↔ IsHealthy codec s last ts
serve-IsHealthy codec s addr id last ts inner = (
  λ h. run-IsHealthy codec s addr id inner last ts h.0 h.1,
  IsHealthy-run codec s addr id inner last ts,
)
