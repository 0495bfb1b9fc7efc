-- ===== src/Gps/Examples.antt =====
-- Users on a line, near if less than 5 lies between them.
use common_fw.Common.{ℕ, ◌-◌, ◌+◌, ◌≡◌, Bool, true, List, [], ◌∷◌, ltb, Assoc, ok}
use common_fw.Gps.{GpsUserData, gps_coordinate_ana, with_pair}
use common_fw.Gps.Near.{gps_coordinate_ana-Groups, AllTogether, in_any, in_near_pair}

abbrev distance : ℕ → ℕ → ℕ
distance x y = (x - y) + (y - x)

abbrev is_near : ℕ → Bool
is_near d = ltb d 5

abbrev users : List (GpsUserData ℕ)
users =
    record { uid = 1; position = 10 }
    ∷ record { uid = 2; position = 12 }
    ∷ record { uid = 3; position = 40 }
    ∷ []

gps_coordinate_ana-Groups_example :
    (groups : List (Assoc ℕ)) × (gps_coordinate_ana distance is_near users ≡ ok groups)
    × AllTogether distance is_near users groups
    × ((u : ℕ) → in_any u groups ≡ true → in_near_pair distance is_near u users ≡ true)
gps_coordinate_ana-Groups_example = gps_coordinate_ana-Groups distance is_near users

-- Two groups without the users 5 and 6, who get two groups more.
abbrev two_groups : List (Assoc ℕ)
two_groups = with_pair 1 2 3 [] ∷ with_pair 3 4 4 [] ∷ []
