-- ===== src/Gps.antt =====
-- component/gps/gps.go: users grouped by their distances and by their addresses.
pub mod Groups
pub mod Near
pub mod Addresses
mod Examples
use common_fw.Common.{
  ℕ, zero, suc, ◌+◌, ◌*◌, Bool, true, false, ◌&&◌, ◌||◌, Option, none, some, List, [], ◌∷◌, ◌++◌,
  ◌==◌, ◌≡◌, if◌then◌else◌, length, Assoc, Entry, lookup, assign, exists, Map, empty_map, put,
  Outcome, ok, stuck, ◌>>=◌, All,
}

-- Latitude and longitude, which only the distance reads, are one value.
pub record GpsUserData (P : Type 0) : Type 0 where
  pub uid : ℕ
  pub position : P

pub record IpData : Type 0 where
  pub uid : ℕ
  pub ip_address : ℕ

abbrev pub append_to : Option (List ℕ) → ℕ → List ℕ
append_to none uid = uid ∷ []
append_to (some uids) uid = uids ++ (uid ∷ [])

unfoldable pub group_ip_loop : List IpData → Map (List ℕ) → Map (List ℕ)
group_ip_loop [] m = m
group_ip_loop (v ∷ vs) m = group_ip_loop vs (put m v.ip_address (append_to (m v.ip_address) v.uid))

unfoldable pub group_ip : List IpData → Map (List ℕ)
group_ip vs = group_ip_loop vs empty_map

-- F holds the numbers of floating point.
module _ {F : Type 0} where
  abbrev pub has : Assoc F → ℕ → Bool
  has m uid = exists (lookup m uid)

  abbrev pub with_pair : ℕ → ℕ → F → Assoc F → Assoc F
  with_pair a b d m = assign (assign m a d) b d

  -- The loop over `similar`, from an index on; each round reads its length again.
  unfoldable pub similar_loop : ℕ → ℕ → ℕ → F → List (Assoc F) → Outcome (List (Assoc F))
  similar_loop zero a b d ms = stuck
  similar_loop (suc n) a b d [] = ok []
  similar_loop (suc n) a b d (m ∷ ms) =
      let is_in = has m a || has m b in
      similar_loop n a b d (if is_in then ms else ms ++ (with_pair a b d [] ∷ [])) >>= λ rest.
      ok ((if is_in then with_pair a b d m else m) ∷ rest)

  unfoldable pub add_pair : ℕ → ℕ → F → List (Assoc F) → Outcome (List (Assoc F))
  add_pair a b d [] = ok (with_pair a b d [] ∷ [])
  add_pair a b d (m ∷ ms) = similar_loop (2 * length (m ∷ ms) + 1) a b d (m ∷ ms)

  -- DistanceBetweenGPS, and whether `d*1000 < threshold`.
  module _ {P : Type 0} (distance : P → P → F) (is_near : F → Bool) where
    unfoldable pub second_loop :
        GpsUserData P → List (GpsUserData P) → List (Assoc F) → Outcome (List (Assoc F))
    second_loop p1 [] ms = ok ms
    second_loop p1 (p2 ∷ ps) ms =
        let d = distance p1.position p2.position in
        (if is_near d then add_pair p1.uid p2.uid d ms else ok ms) >>= λ ms'. second_loop p1 ps ms'

    unfoldable pub first_loop : List (GpsUserData P) → List (Assoc F) → Outcome (List (Assoc F))
    first_loop [] ms = ok ms
    first_loop (p1 ∷ ps) ms = second_loop p1 ps ms >>= λ ms'. first_loop ps ms'

    unfoldable pub gps_coordinate_ana : List (GpsUserData P) → Outcome (List (Assoc F))
    gps_coordinate_ana ps = first_loop ps []
