-- ===== src/Gps/Near.antt =====
-- Which users the groups of GPSCoordinateAna hold.
use common_fw.Common.{
  ℕ, zero, suc, ◌≡◌, refl, ap, ◌∙◌, Bool, true, false, ◌&&◌, ◌||◌, List, [], ◌∷◌, ◌++◌, map, ◌==◌,
  if◌then◌else◌, replicate, Assoc, assign, Outcome, ok, ◌>>=◌, All, Bool-cases, inl, inr, arith,
}
use common_fw.Gps.{
  GpsUserData, has, with_pair, add_pair, second_loop, first_loop, gps_coordinate_ana,
}
use common_fw.Gps.Groups.{has-assign, touched, lacking, new_group, joined, add_pair_lem}

module _ {F : Type 0} where
  -- Whether some group has a user, and whether one has both of two.
  abbrev pub in_any : ℕ → List (Assoc F) → Bool
  in_any u [] = false
  in_any u (m ∷ ms) = has m u || in_any u ms

  abbrev pub together : ℕ → ℕ → List (Assoc F) → Bool
  together u v [] = false
  together u v (m ∷ ms) = (has m u && has m v) || together u v ms

  has-with_pair :
      (a b u : ℕ) (d : F) (m : Assoc F)
      → has (with_pair a b d m) u ≡ (u == b) || ((u == a) || has m u)
  has-with_pair a b u d m =
      has-assign (assign m a d) b u d ∙ ap (λ h. (u == b) || h) (has-assign m a u d)

  abbrev Keeps : List (Assoc F) → List (Assoc F) → Type 0
  Keeps ms ns = (u v : ℕ) → together u v ms ≡ true → together u v ns ≡ true

  module _ (a b : ℕ) (d : F) where
    touched_grows : (m : Assoc F) (u : ℕ) → has m u ≡ true → has (touched a b d m) u ≡ true
    touched_grows m u h = elim (Bool-cases (has m a || has m b)) [
      | inl e ↦ rw (e, has-with_pair a b u d m, h) (ground arith)
      | inr e ↦ rw e h
    ]

    touched_only :
        (m : Assoc F) (u : ℕ)
        → has (touched a b d m) u ≡ true
        → (u == b) || ((u == a) || has m u) ≡ true
    touched_only m u h = elim (Bool-cases (has m a || has m b)) [
      | inl e ↦ (let g = rw (e, has-with_pair a b u d m) at h in g)
      | inr e ↦ (let g = rw e at h in ground arith)
    ]

    map-Keeps : (ms ns : List (Assoc F)) → Keeps ms (map (touched a b d) ms ++ ns)
    map-Keeps [] ns u v h = ground arith
    map-Keeps (m ∷ ms) ns u v h =
        ground (arith, touched_grows m u, touched_grows m v, map-Keeps ms ns u v)

    joined-Keeps : (ms : List (Assoc F)) → Keeps ms (joined a b d ms)
    joined-Keeps [] u v h = ground arith
    joined-Keeps (m ∷ ms) u v h =
        map-Keeps (m ∷ ms) (replicate (lacking a b d (m ∷ ms)) (new_group a b d)) u v h

    replicate_only :
        (n u : ℕ) → in_any u (replicate n (new_group a b d)) ≡ true → (u == b) || (u == a) ≡ true
    replicate_only zero u h = ground arith
    replicate_only (suc n) u h = ground (arith, has-with_pair a b u d [], replicate_only n u)

    map_only :
        (ms : List (Assoc F)) (n u : ℕ)
        → in_any u (map (touched a b d) ms ++ replicate n (new_group a b d)) ≡ true
        → (u == b) || ((u == a) || in_any u ms) ≡ true
    map_only [] n u h = ground (arith, replicate_only n u h)
    map_only (m ∷ ms) n u h = ground (arith, touched_only m u, map_only ms n u)

    joined_only :
        (ms : List (Assoc F)) (u : ℕ)
        → in_any u (joined a b d ms) ≡ true
        → (u == b) || ((u == a) || in_any u ms) ≡ true
    joined_only [] u h = map_only [] 1 u h
    joined_only (m ∷ ms) u h = map_only (m ∷ ms) (lacking a b d (m ∷ ms)) u h

    new_group-together : has (new_group a b d) a && has (new_group a b d) b ≡ true
    new_group-together = ground arith

    last-together :
        (ms : List (Assoc F)) (n : ℕ)
        → together a b (ms ++ replicate (suc n) (new_group a b d)) ≡ true
    last-together [] n = rw new_group-together refl
    last-together (m ∷ ms) n = ground (arith, last-together ms n)

    joined-together : (ms : List (Assoc F)) → together a b (joined a b d ms) ≡ true
    joined-together [] = last-together [] 0
    joined-together (m ∷ ms) = elim (Bool-cases (has m a || has m b)) [
      | inl e ↦ rw (e, has-with_pair a b a d m, has-with_pair a b b d m) (ground arith)
      | inr e ↦ rw e (last-together (m ∷ map (touched a b d) ms) (lacking a b d ms))
    ]

  module _ {P : Type 0} (distance : P → P → F) (is_near : F → Bool) where
    abbrev pub are_near : GpsUserData P → GpsUserData P → Bool
    are_near p q = is_near (distance p.position q.position)

    -- Whether a user is one of a near pair: in a row of pairs, and in a list of users.
    abbrev pub in_row : ℕ → GpsUserData P → List (GpsUserData P) → Bool
    in_row u p [] = false
    in_row u p (q ∷ qs) = (are_near p q && ((u == q.uid) || (u == p.uid))) || in_row u p qs

    abbrev pub in_near_pair : ℕ → List (GpsUserData P) → Bool
    in_near_pair u [] = false
    in_near_pair u (p ∷ ps) = in_row u p ps || in_near_pair u ps

    -- The users near one, and all near users, stand in a common group.
    abbrev pub RowTogether : GpsUserData P → List (GpsUserData P) → List (Assoc F) → Type 0
    RowTogether p qs ms = All (λ q. are_near p q ≡ true → together p.uid q.uid ms ≡ true) qs

    abbrev pub AllTogether : List (GpsUserData P) → List (Assoc F) → Type 0
    AllTogether [] ms = Unit
    AllTogether (p ∷ ps) ms = RowTogether p ps ms × AllTogether ps ms

    row-Keeps :
        (p : GpsUserData P) (qs : List (GpsUserData P)) (ms ns : List (Assoc F))
        → Keeps ms ns
        → RowTogether p qs ms
        → RowTogether p qs ns
    row-Keeps p [] ms ns k h = h
    row-Keeps p (q ∷ qs) ms ns k h = (λ e. k p.uid q.uid (h.0 e), row-Keeps p qs ms ns k h.1)

    -- What a loop from some groups to others does, with the near pairs that it meets.
    record Passed (ms : List (Assoc F)) (Meets : List (Assoc F) → Type 0) (met : ℕ → Bool)
        (res : Outcome (List (Assoc F))) : Type 0 where
      out : List (Assoc F)
      ends : res ≡ ok out
      keeps : Keeps ms out
      meets : Meets out
      only : (u : ℕ) → in_any u out ≡ true → met u || in_any u ms ≡ true

    near_one :
        (p q : GpsUserData P) (qs : List (GpsUserData P)) (ms : List (Assoc F))
        → ((ns : List (Assoc F))
            → Passed ns
                (RowTogether p qs)
                (λ u. in_row u p qs)
                (second_loop distance is_near p qs ns))
        → (n : Bool) → are_near p q ≡ n
        → Passed ms
            (RowTogether p (q ∷ qs))
            (λ u. in_row u p (q ∷ qs))
            ((if n then add_pair p.uid q.uid (distance p.position q.position) ms else ok ms)
              >>= λ ms'. second_loop distance is_near p qs ms')
    near_one p q qs ms ih true e =
        let d = distance p.position q.position in
        let r = ih (joined p.uid q.uid d ms) in
        let both = joined-together p.uid q.uid d ms in
        record {
          out = r.out;
          ends = rw (add_pair_lem p.uid q.uid d ms) r.ends;
          keeps = λ u v h. r.keeps u v (joined-Keeps p.uid q.uid d ms u v h);
          meets = (λ _. r.keeps p.uid q.uid both, r.meets);
          only = λ u h. ground (arith, r.only u h, joined_only p.uid q.uid d ms u);
        }
    near_one p q qs ms ih false e =
        let r = ih ms in
        record {
          out = r.out;
          ends = r.ends;
          keeps = r.keeps;
          meets = (λ h. absurd (cc), r.meets);
          only = λ u h. ground (arith, r.only u h);
        }

    second_loop-Passed :
        (p : GpsUserData P) (qs : List (GpsUserData P)) (ms : List (Assoc F))
        → Passed ms (RowTogether p qs) (λ u. in_row u p qs) (second_loop distance is_near p qs ms)
    unfolding second_loop
    second_loop-Passed p [] ms = record {
      out = ms;
      ends = refl;
      keeps = λ u v h. h;
      meets = tt;
      only = λ u h. h;
    }
    second_loop-Passed p (q ∷ qs) ms =
        near_one p q qs ms (second_loop-Passed p qs) (are_near p q) refl

    first_loop-Passed :
        (ps : List (GpsUserData P)) (ms : List (Assoc F))
        → Passed ms (AllTogether ps) (λ u. in_near_pair u ps) (first_loop distance is_near ps ms)
    unfolding first_loop
    first_loop-Passed [] ms = record {
      out = ms;
      ends = refl;
      keeps = λ u v h. h;
      meets = tt;
      only = λ u h. h;
    }
    first_loop-Passed (p ∷ ps) ms =
        let r = second_loop-Passed p ps ms in
        let t = first_loop-Passed ps r.out in
        record {
          out = t.out;
          ends = rw r.ends t.ends;
          keeps = λ u v h. t.keeps u v (r.keeps u v h);
          meets = (row-Keeps p ps r.out t.out t.keeps r.meets, t.meets);
          only = λ u h. ground (arith, t.only u h, r.only u);
        }

    -- Whatever the distances, the analysis ends: the loop over the groups does, although it appends to
    -- them. Two users of the list whose distance, from the earlier one to the later one, is near stand in
    -- a common group, and each user in a group is one of such a pair.
    pub gps_coordinate_ana-Groups :
        (ps : List (GpsUserData P))
        → (groups : List (Assoc F)) × (gps_coordinate_ana distance is_near ps ≡ ok groups)
          × AllTogether ps groups
          × ((u : ℕ) → in_any u groups ≡ true → in_near_pair u ps ≡ true)
    unfolding gps_coordinate_ana
    gps_coordinate_ana-Groups ps =
        let r = first_loop-Passed ps [] in
        (r.out, r.ends, r.meets, λ u h. ground (arith, r.only u h))
