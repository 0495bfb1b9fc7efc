-- ===== src/Gps/Addresses.antt =====
-- The users that GroupIP lists for an address.
use common_fw.Common.{
  ℕ, ◌≡◌, refl, Option, none, some, List, [], ◌∷◌, ◌++◌, ◌==◌, if◌then◌else◌, Map, put, arith, ap,
  sym,
}
use mathlib.Core.List.{append-nil, append_assoc}
use common_fw.Gps.{IpData, append_to, group_ip_loop, group_ip}

-- The users of an address, in their order.
abbrev pub uids_at : ℕ → List IpData → List ℕ
uids_at ip [] = []
uids_at ip (v ∷ vs) = let rest = uids_at ip vs in if v.ip_address == ip then v.uid ∷ rest else rest

-- An entry of a map with more users; without any there is none.
abbrev pub with_uids : Option (List ℕ) → List ℕ → Option (List ℕ)
with_uids none [] = none
with_uids none (u ∷ us) = some (u ∷ us)
with_uids (some vs) us = some (vs ++ us)

with_uids_nil : (o : Option (List ℕ)) → o ≡ with_uids o []
with_uids_nil none = refl
with_uids_nil (some us) = ap some (sym (append-nil us))

with_uids_cons :
    (o : Option (List ℕ)) (u : ℕ) (us : List ℕ)
    → with_uids (some (append_to o u)) us ≡ with_uids o (u ∷ us)
with_uids_cons none u us = refl
with_uids_cons (some vs) u us = ap some (append_assoc vs (u ∷ []) us)

group_ip_loop_lem :
    (vs : List IpData) (m : Map (List ℕ)) (ip : ℕ)
    → group_ip_loop vs m ip ≡ with_uids (m ip) (uids_at ip vs)
unfolding group_ip_loop
group_ip_loop_lem [] m ip = with_uids_nil (m ip)
group_ip_loop_lem (v ∷ vs) m ip = ground (
  arith,
  group_ip_loop_lem vs (put m v.ip_address (append_to (m v.ip_address) v.uid)) ip,
  with_uids_cons (m v.ip_address) v.uid (uids_at ip vs),
)

-- GroupIP has an entry for the addresses of the users and no other, with the users of that address in
-- their order.
pub group_ip_lem : (vs : List IpData) (ip : ℕ) → group_ip vs ip ≡ with_uids none (uids_at ip vs)
unfolding group_ip
group_ip_lem vs ip = group_ip_loop_lem vs (λ j. none) ip
