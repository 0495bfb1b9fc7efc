-- ===== src/Net/Client/Safe.antt =====
-- component/net/client/client.go: when SendMsg can panic, and where a message with a key goes.
use common_fw.Common.{
  ℕ, zero, suc, ◌+◌, ◌%◌, ◌<◌, ◌≡◌, refl, Bool, List, some, length, Outcome, ok, panic, sym, subst,
  Option-cases, inl, inr, arith, lookup,
}
use common_fw.Net.Client.{Conn, Client, max_server_num, get_elem?}
use common_fw.Net.Client.Routing.{
  RouteType, Arg, Links, Robin, Sent, robin, with_robin_idx, send_msg, send_to, send_at,
  send_modulo, send_by_table, send_keyed, refuse, send_picked, SendError, invalid_argument,
}
use native.Mathlib.Nat.{mod-lt}
use common_fw.Net.Client.Robin.{Picks, others, get_elem?-range, robin-Picks}

-- The indexes that SendMsg uses are in range.
pub record IsInRange (c : Client) : Type 0 where
  pub robin_in : c.robin_idx < length c.all_svr_id
  pub table_full : length c.route_table ≡ 512
  pub table_in : (h v : ℕ) → get_elem? c.route_table h ≡ some v → v < length c.all_svr_id

-- The round robin of a client whose indexes are in range.
robin_ends :
    (c : Client) (looks : ℕ → Links) (h : c.robin_idx < length c.all_svr_id) (o : Outcome Robin)
    → Picks c.all_svr_id c.robin_idx looks o
    → (r : Robin) × (o ≡ ok r) × (r.next_idx < length c.all_svr_id)
robin_ends c looks h o (Picks.picks k conn i down up) =
    (_, refl, mod-lt (c.robin_idx + k + others looks k + 1) (omega arith))
robin_ends c looks h o (Picks.gives_up k n down) =
    (_, refl, mod-lt (c.robin_idx + k + others looks k + 1) (omega arith))

Safely : Outcome Sent → Type 0
Safely o = (s : Sent) × (o ≡ ok s) × IsInRange s.client

module _ (fails : Conn → Bool) (c : Client) (h : IsInRange c) where
  send_to-client : (id : ℕ) → (send_to fails c id).client ≡ c
  send_to-client id = elim (Option-cases (lookup c.conn_map id)) [
    | inl e ↦ rw (e, send_to) refl
    | inr e ↦ rw (e.1, send_to) refl
  ]

  send_at_safe : (idx : ℕ) → idx < length c.all_svr_id → Safely (send_at fails c idx)
  unfolding Safely
  send_at_safe idx p =
      let at = get_elem?-range c.all_svr_id idx p in
      (send_to fails c at.0, rw (at.1, send_at) refl, subst IsInRange (sym (send_to-client at.0)) h)

  send_modulo_safe : (hash : ℕ) → Safely (send_modulo fails c hash)
  send_modulo_safe hash = go (length c.all_svr_id) refl
    where
      go :
          (n : ℕ)
          → length c.all_svr_id ≡ n
          → Safely (elim n [ zero ↦ panic | suc m ↦ send_at fails c (hash % suc m) ])
      go zero e = (let p = h.robin_in in absurd (omega arith))
      go (suc m) e = send_at_safe (hash % suc m) (rw e (omega arith))

  send_by_table_safe : (hash : ℕ) → Safely (send_by_table fails c hash)
  send_by_table_safe hash =
      let full = h.table_full in
      let at = get_elem?-range c.route_table (hash % max_server_num) (omega arith) in
      rw (at.1, send_by_table) (send_at_safe at.0 (h.table_in (hash % max_server_num) at.0 at.1))

  refuse_safe : (e : SendError) → Safely (ok (refuse fails c e))
  unfolding Safely
  refuse_safe e = (_, refl, h)

  keyed_safe :
      (route : ℕ → Outcome Sent)
      → ((hash : ℕ) → Safely (route hash))
      → (hash : List ℕ → ℕ) → (arg : Arg) → Safely (send_keyed fails hash route c arg)
  keyed_safe route safe hash (Arg.hash_key key) = safe (hash key)
  keyed_safe route safe hash (Arg.server_id id) = refuse_safe invalid_argument
  keyed_safe route safe hash Arg.other_arg = refuse_safe invalid_argument

  send_picked-client : (r : Robin) → (send_picked fails c r).client ≡ with_robin_idx r.next_idx c
  send_picked-client r = elim (Option-cases r.conn) [
    | inl e ↦ rw (e, send_picked) refl
    | inr e ↦ rw (e.1, send_picked) refl
  ]

  picked_safe : (r : Robin) → r.next_idx < length c.all_svr_id → Safely (ok (send_picked fails c r))
  unfolding Safely
  picked_safe r p = (
    send_picked fails c r,
    refl,
    subst IsInRange (sym (send_picked-client r))
        (record { robin_in = p; table_full = h.table_full; table_in = h.table_in }),
  )

-- A client whose indexes are in range, and a message of any kind, with any argument, whatever
-- happens to the connections meanwhile, and however often other calls move robinIdx on: SendMsg ends without a panic, and the indexes are in range
-- again.
pub send_msg-IsInRange :
    (fails : Conn → Bool) (hash : List ℕ → ℕ) (type : RouteType) (arg : Arg) (looks : ℕ → Links)
    (c : Client)
    → IsInRange c
    → (s : Sent) × (send_msg fails hash type arg looks c ≡ ok s) × IsInRange s.client
unfolding Safely send_msg
send_msg-IsInRange fails hash RouteType.p2p (Arg.server_id id) looks c h =
    (_, refl, subst IsInRange (sym (send_to-client fails c h id)) h)
send_msg-IsInRange fails hash RouteType.p2p (Arg.hash_key key) looks c h = (_, refl, h)
send_msg-IsInRange fails hash RouteType.p2p Arg.other_arg looks c h = (_, refl, h)
send_msg-IsInRange fails hash RouteType.bd arg looks c h = (_, refl, h)
send_msg-IsInRange fails hash RouteType.rd arg looks c h =
    let ends = robin_ends c looks h.robin_in (robin c looks) (robin-Picks c looks h.robin_in) in
    rw (ends.1, send_msg) (picked_safe fails c h ends.0 ends.2)
send_msg-IsInRange fails hash RouteType.tm arg looks c h =
    keyed_safe fails c h _ (send_modulo_safe fails c h) hash arg
send_msg-IsInRange fails hash RouteType.tmn arg looks c h =
    keyed_safe fails c h _ (send_modulo_safe fails c h) hash arg
send_msg-IsInRange fails hash RouteType.rt arg looks c h =
    keyed_safe fails c h _ (send_by_table_safe fails c h) hash arg
send_msg-IsInRange fails hash RouteType.rtn arg looks c h =
    keyed_safe fails c h _ (send_by_table_safe fails c h) hash arg
send_msg-IsInRange fails hash RouteType.other_type arg looks c h = (_, refl, h)
