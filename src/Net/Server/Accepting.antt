-- ===== src/Net/Server/Accepting.antt =====
-- component/net/client/client.go and component/net/server/server.go: a client's job and a server's.
use common_fw.Common.{
  ℕ, ◌≡◌, ◌≢◌, ◌⊎◌, refl, Bool, true, false, Option, none, some, List, [], ◌∷◌, ◌==◌, if◌then◌else◌,
  inl, inr, ◌∙◌, ap, subst, ==_iff, arith,
}
use common_fw.Net.Client.Jobs.{Received}
use common_fw.Net.Server.{
  reg, keepalive, Cmd, client_cmd, Server, Addr, Codec, Turn, goes_on, ends, check_cmd, as_id,
  fails, refused, reg_checked, register, register_by, conn_job,
}
use common_fw.Net.Server.Alive.{InTime, IsNoCommand, IsHealthy, serve-IsHealthy}

-- A command as it arrives.
abbrev pub sent : (Cmd → List ℕ) → Cmd → Option Received
sent encode m = some (record { is_cmd = true; bytes = encode m })

-- The connection stays open, each tick comes at most 15 seconds after a keep-alive, and the client
-- sends nothing but its keep-alives and messages.
abbrev pub OnTime : (Cmd → List ℕ) → ℕ → ℕ → ℕ → List Turn → Type 0
OnTime encode client_id server_id last [] = Unit
OnTime encode client_id server_id last (t ∷ ts) =
    (t.is_closed ≡ false)
    × InTime last t.tick
    × (((t.received ≡ sent encode (client_cmd keepalive client_id server_id))
          × OnTime encode client_id server_id t.now ts)
        ⊎ (IsNoCommand t.received × OnTime encode client_id server_id last ts))

by_dst :
    (b : Bool) (m : Cmd) (src : ℕ)
    → m.src_service_id ≡ some src
    → reg_checked (if b then none else some refused) (some m)
      ≡ (if b then as_id src else fails refused)
by_dst true m src e = rw e refl
by_dst false m src e = refl

module _ (encode : Cmd → List ℕ) (codec : Codec)
    (inverse : (m : Cmd) → codec.decode_cmd (encode m) ≡ some m) (s : Server)
    (inner : s.is_gateway ≡ false) where
  OnTime-IsHealthy :
      (client_id last : ℕ) (ts : List Turn)
      → OnTime encode client_id s.server_id last ts
      → IsHealthy codec s last ts
  unfolding IsHealthy
  OnTime-IsHealthy client_id last [] h = tt
  OnTime-IsHealthy client_id last (t ∷ ts) (e, i, inl k) = (
    e,
    i,
    inl (
      (_, k.0, refl, _, inverse (client_cmd keepalive client_id s.server_id), refl, refl),
      OnTime-IsHealthy client_id t.now ts k.1,
    ),
  )
  OnTime-IsHealthy client_id last (t ∷ ts) (e, i, inr k) =
      (e, i, inr (k.0, OnTime-IsHealthy client_id last ts k.1))

  registers :
      (gen_id client_id server_id : ℕ)
      → register codec s gen_id (sent encode (client_cmd reg client_id server_id))
        ≡ (if server_id == s.server_id then as_id client_id else fails refused)
  unfolding register
  registers gen_id client_id server_id =
      let m = client_cmd reg client_id server_id in
      ap (λ b. register_by b codec s gen_id (sent encode m)) inner
      ∙ (ap (λ o. reg_checked (check_cmd s reg o) o) (inverse m)
          ∙ by_dst (server_id == s.server_id) m client_id refl)

-- A client and a server that is no gateway, over an encoding of commands that can be undone: when
-- the client registers for the server's own id, and its keep-alives are such that every tick comes
-- at most 15 seconds after one, the server's job goes on; when it registers for another id, the job
-- ends at once and hands nothing on.
pub conn_job-client :
    (encode : Cmd → List ℕ) (codec : Codec)
    → ((m : Cmd) → codec.decode_cmd (encode m) ≡ some m)
    → (s : Server) → s.is_gateway ≡ false
    → (addr : Addr) (gen_id client_id server_id now : ℕ) (ts : List Turn)
    → (server_id ≡ s.server_id
        → OnTime encode client_id server_id now ts
        → (end : ℕ) × ((conn_job codec s addr gen_id
              (sent encode (client_cmd reg client_id server_id))
              now
              ts).progress
            ≡ goes_on end))
      × (server_id ≢ s.server_id
          → conn_job codec s addr gen_id (sent encode (client_cmd reg client_id server_id)) now ts
            ≡ record { progress = ends refused; handed_on = [] })
unfolding conn_job
conn_job-client encode codec inverse s inner addr gen_id client_id server_id now ts =
    let known = registers encode codec inverse s inner gen_id client_id server_id in
    (
      λ e h.
          (let here = (==_iff server_id s.server_id).1 e in
            let healthy =
              OnTime-IsHealthy encode codec inverse s inner client_id now ts
                (subst (λ i. OnTime encode client_id i now ts) e h) in
            let run = (serve-IsHealthy codec s addr client_id now ts inner).1 healthy in
            (run.0, rw (known, here, conn_job) run.1)),
      λ e.
          (let other : (server_id == s.server_id) ≡ false = ground arith in
            rw (known, other, conn_job) refl),
    )
