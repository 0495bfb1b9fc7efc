-- ===== src/Net/Client/Table.antt =====
-- component/net/client/client.go: the route table that a configuration gives.
use common_fw.Common.{
  ℕ, zero, suc, ◌+◌, ◌-◌, ◌<◌, ◌≤◌, ◌≡◌, refl, Bool, ◌&&◌, List, [], ◌∷◌, some, length, replicate,
  length-replicate, leb, ltb, ◌==◌, if◌then◌else◌, Bool-cases, inl, inr, ◌∙◌, arith,
}
use common_fw.Net.Client.{
  max_server_num, get_elem?, set_elem, fill, fill_entries, make_route_table, RouteEntry,
}

abbrev pub covers : RouteEntry → ℕ → Bool
covers e h = leb e.hash_begin h && leb h e.hash_end

-- The server index of the last entry that covers the hash, or the one given.
abbrev pub last_idx : List RouteEntry → ℕ → ℕ → ℕ
last_idx [] h v = v
last_idx (e ∷ es) h v = last_idx es h (if covers e h then e.server_idx else v)

length-set_elem : (rt : List ℕ) (i v : ℕ) → length (set_elem rt i v) ≡ length rt
unfolding set_elem
length-set_elem [] i v = refl
length-set_elem (x ∷ rt) zero v = refl
length-set_elem (x ∷ rt) (suc i) v = omega (arith, length-set_elem rt i v)

get_elem?-set_elem :
    (rt : List ℕ) (i v j : ℕ)
    → i < length rt
    → get_elem? (set_elem rt i v) j ≡ (if j == i then some v else get_elem? rt j)
unfolding set_elem get_elem?
get_elem?-set_elem [] i v j h = absurd (omega arith)
get_elem?-set_elem (x ∷ rt) zero v zero h = ground arith
get_elem?-set_elem (x ∷ rt) zero v (suc j) h = ground arith
get_elem?-set_elem (x ∷ rt) (suc i) v zero h = ground arith
get_elem?-set_elem (x ∷ rt) (suc i) v (suc j) h =
    ground (arith, get_elem?-set_elem rt i v j (omega arith))

get_elem?-replicate : (n v j : ℕ) → j < n → get_elem? (replicate n v) j ≡ some v
unfolding get_elem?
get_elem?-replicate zero v j h = absurd (omega arith)
get_elem?-replicate (suc n) v zero h = refl
get_elem?-replicate (suc n) v (suc j) h = get_elem?-replicate n v j (omega arith)

length-fill : (fuel i end v : ℕ) (rt : List ℕ) → length (fill fuel i end v rt) ≡ length rt
unfolding fill
length-fill zero i end v rt = refl
length-fill (suc fuel) i end v rt = elim (Bool-cases (leb i end && ltb i max_server_num)) [
  | inl e ↦ rw (e, fill) (length-fill fuel (i + 1) end v (set_elem rt i v) ∙ length-set_elem rt i v)
  | inr e ↦ rw (e, fill) refl
]

get_elem?-fill :
    (fuel i end v : ℕ) (rt : List ℕ) (h : ℕ)
    → length rt ≡ 512
    → 512 ≤ fuel + i
    → h < 512
    → get_elem? (fill fuel i end v rt) h ≡ (if leb i h && leb h end then some v else get_elem? rt h)
unfolding fill
get_elem?-fill zero i end v rt h l f p = ground arith
get_elem?-fill (suc fuel) i end v rt h l f p =
    elim (Bool-cases (leb i end && ltb i max_server_num)) [
      | inl e ↦
          rw (e, fill)
            (get_elem?-fill fuel (i + 1) end v (set_elem rt i v) h (length-set_elem rt i v ∙ l)
                (omega arith) p
              ∙ ground (arith, get_elem?-set_elem rt i v h (ground arith)))
      | inr e ↦ rw (e, fill) (ground arith)
    ]

length-fill_entries : (es : List RouteEntry) (rt : List ℕ) → length (fill_entries es rt) ≡ length rt
unfolding fill_entries
length-fill_entries [] rt = refl
length-fill_entries (e ∷ es) rt =
    length-fill_entries es _
    ∙ length-fill (max_server_num - e.hash_begin) e.hash_begin e.hash_end e.server_idx rt

get_elem?-fill_entries :
    (es : List RouteEntry) (rt : List ℕ) (h v : ℕ)
    → length rt ≡ 512
    → h < 512
    → get_elem? rt h ≡ some v
    → get_elem? (fill_entries es rt) h ≡ some (last_idx es h v)
unfolding fill_entries
get_elem?-fill_entries [] rt h v l p e = e
get_elem?-fill_entries (r ∷ es) rt h v l p e =
    get_elem?-fill_entries es _ h _
      (length-fill (max_server_num - r.hash_begin) r.hash_begin r.hash_end r.server_idx rt ∙ l) p
      (get_elem?-fill (max_server_num - r.hash_begin) r.hash_begin r.hash_end r.server_idx rt h l
          (omega arith) p
        ∙ ground (arith, e))

no_routes : length (replicate {A = ℕ} max_server_num 0) ≡ 512
no_routes = let z : ℕ = 0 in length-replicate max_server_num z

-- The route table has 512 places, and the place of a hash has the server index of the last route
-- entry whose range has the hash, and 0 where none has: ranges may overlap, and may go beyond the
-- table.
pub make_route_table_lem :
    (es : List RouteEntry)
    → (length (make_route_table es) ≡ 512)
      × ((h : ℕ) → h < 512 → get_elem? (make_route_table es) h ≡ some (last_idx es h 0))
unfolding make_route_table
make_route_table_lem es = (
  length-fill_entries es _ ∙ no_routes,
  λ h p. get_elem?-fill_entries es _ h 0 (no_routes) p (get_elem?-replicate max_server_num 0 h p),
)
