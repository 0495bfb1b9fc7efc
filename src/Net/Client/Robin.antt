-- ===== src/Net/Client/Robin.antt =====
-- component/net/client/client.go: the round robin of SendMsg, and the servers that it looks at.
use common_fw.Common.{
  ℕ, zero, suc, ◌+◌, ◌%◌, ◌<◌, ◌≤◌, ◌≡◌, refl, List, [], ◌∷◌, Option, none, some, leb, ltb, ltb→lt,
  Bool-cases, ◌∙◌, ap, sym, ==_iff, ◌==◌, true, false, subst, length, Outcome, ok, Option-cases,
  inl, inr, arith,
}
use native.Mathlib.Nat.{mod-add-mod, mod-eq_of_lt, mod_self, mod-lt}
use common_fw.Net.Client.{Conn, Client, get_elem?}
use common_fw.Net.Client.Routing.{Links, live, Robin, advance, moved_on, robin_loop, robin}

-- How often other calls have moved robinIdx on between the first look and the k-th.
abbrev pub others : (ℕ → Links) → ℕ → ℕ
others looks zero = 0
others looks (suc k) = others looks k + (looks (suc k)).moved

-- The server of the k-th look: from the place idx on and around, behind those of other calls.
abbrev pub server_at : List ℕ → ℕ → (ℕ → Links) → ℕ → Option ℕ
server_at ids idx looks k = get_elem? ids ((idx + k + others looks k) % length ids)

module _ (ids : List ℕ) (idx : ℕ) (looks : ℕ → Links) where
  abbrev pub IsDown : ℕ → Type 0
  IsDown k = (id : ℕ) × (server_at ids idx looks k ≡ some id) × (live (looks k) id ≡ none)

  abbrev pub IsUp : ℕ → Conn → Type 0
  IsUp k conn = (id : ℕ) × (server_at ids idx looks k ≡ some id) × (live (looks k) id ≡ some conn)

  -- The first server that is up when it is looked at, or none in as many looks as there are servers;
  -- robinIdx is left behind the last server looked at.
  pub data Picks : Outcome Robin → Type 0 where
    picks :
        (k : ℕ) (conn : Conn)
        → k < length ids
        → ((j : ℕ) → j < k → IsDown j)
        → IsUp k conn
        → Picks (
            ok
              (record { next_idx = (idx + k + others looks k + 1) % length ids; conn = some conn }))
    gives_up :
        (k : ℕ)
        → suc k ≡ length ids
        → ((j : ℕ) → j < length ids → IsDown j)
        → Picks
            (ok (record { next_idx = (idx + k + others looks k + 1) % length ids; conn = none }))

pub get_elem?-range {ℓ} :
    {A : Type ℓ} (xs : List A) (i : ℕ) → i < length xs → (a : A) × (get_elem? xs i ≡ some a)
unfolding get_elem?
get_elem?-range [] i h = absurd (omega arith)
get_elem?-range (x ∷ xs) zero h = (x, refl)
get_elem?-range (x ∷ xs) (suc i) h = get_elem?-range xs i (omega arith)

advance-mod : (n m : ℕ) → 0 < n → advance n (m % n) ≡ (m + 1) % n
unfolding advance
advance-mod n m h =
    let next = mod-add-mod m n 1 in
    let below = mod-lt m h in
    elim (Bool-cases (leb n (m % n + 1))) [
      | inl e ↦
          (let full : m % n + 1 ≡ n = ground arith in
            rw e (sym (mod_self n) ∙ (ap (λ x. x % n) (sym full) ∙ next)))
      | inr e ↦ (let less : m % n + 1 < n = ground arith in rw e (sym (mod-eq_of_lt less) ∙ next))
    ]

moved_on-mod : (n j m : ℕ) → 0 < n → moved_on n j (m % n) ≡ (m + j) % n
unfolding moved_on
moved_on-mod n zero m h = ap (λ x. x % n) (omega arith)
moved_on-mod n (suc j) m h =
    ap (moved_on n j) (advance-mod n m h)
    ∙ (moved_on-mod n j (m + 1) h ∙ ap (λ x. x % n) (omega arith))

IsDown-suc :
    (ids : List ℕ) (idx : ℕ) (looks : ℕ → Links) (k : ℕ)
    → ((j : ℕ) → j < k → IsDown ids idx looks j)
    → IsDown ids idx looks k
    → (j : ℕ) → j < suc k
    → IsDown ids idx looks j
IsDown-suc ids idx looks k before now j h = elim (Bool-cases (ltb j k)) [
  | inl p ↦ before j (ltb→lt j k p)
  | inr p ↦ (let e : k ≡ j = ground arith in subst (IsDown ids idx looks) e now)
]

module _ (ids : List ℕ) (idx : ℕ) (looks : ℕ → Links) (h : 0 < length ids) where
  -- Where robinIdx stands at the k-th look.
  place : ℕ → ℕ
  place k = (idx + k + others looks k) % length ids

  next_place :
      (k : ℕ)
      → moved_on (length ids) (looks (suc k)).moved (advance (length ids) (place k)) ≡ place (suc k)
  unfolding place
  next_place k =
      ap (moved_on (length ids) (looks (suc k)).moved)
        (advance-mod (length ids) (idx + k + others looks k) h)
      ∙ (moved_on-mod (length ids) (looks (suc k)).moved (idx + k + others looks k + 1) h
          ∙ ap (λ x. x % length ids) (omega arith))

  -- A look that fails is the last one, or the loop goes on.
  after_failure :
      (fuel k : ℕ)
      → ((j : ℕ) → j < suc k → IsDown ids idx looks j)
      → k < length ids
      → (suc k < length ids
          → Picks ids idx looks (robin_loop fuel ids looks (place (suc k)) (suc k)))
      → Picks ids idx looks (elim (suc k == length ids) [
        | true ↦ ok (record { next_idx = advance (length ids) (place k); conn = none })
        | false ↦
            robin_loop fuel ids looks
              (moved_on (length ids) (looks (suc k)).moved (advance (length ids) (place k)))
              (suc k)
      ])
  unfolding place
  after_failure fuel k down i rest = elim (Bool-cases (suc k == length ids)) [
    | inl e ↦
        (let n = (==_iff (suc k) (length ids)).0 e in
          rw (e, advance-mod (length ids) (idx + k + others looks k) h)
            (Picks.gives_up k n (λ j p. down j (omega arith))))
    | inr e ↦ rw (e, next_place k) (rest (ground arith))
  ]

  robin_loop_lem :
      (fuel k : ℕ)
      → k < length ids
      → length ids ≤ fuel + k
      → ((j : ℕ) → j < k → IsDown ids idx looks j)
      → Picks ids idx looks (robin_loop fuel ids looks (place k) k)
  unfolding robin_loop place
  robin_loop_lem zero k i f down = absurd (omega arith)
  robin_loop_lem (suc fuel) k i f down =
      let at = get_elem?-range ids (place k) (mod-lt (idx + k + others looks k) h) in
      elim (Option-cases (live (looks k) at.0)) [
        | inl e ↦
            rw (at.1, e, robin_loop)
              (after_failure fuel k (IsDown-suc ids idx looks k down (at.0, at.1, e)) i (λ p.
                robin_loop_lem fuel (suc k) p (omega arith)
                  (IsDown-suc ids idx looks k down (at.0, at.1, e))))
        | inr e ↦
            rw (at.1, e.1, advance-mod (length ids) (idx + k + others looks k) h, robin_loop)
              (Picks.picks k e.0 i down (at.0, at.1, e.1))
      ]

pub robin-Picks :
    (c : Client) (looks : ℕ → Links)
    → c.robin_idx < length c.all_svr_id
    → Picks c.all_svr_id c.robin_idx looks (robin c looks)
unfolding robin place
robin-Picks c looks h =
    let some_server : 0 < length c.all_svr_id = omega arith in
    let start : (c.robin_idx + 0 + 0) % length c.all_svr_id ≡ c.robin_idx =
      ap (λ x. x % length c.all_svr_id) (omega arith) ∙ mod-eq_of_lt h in
    subst
      (λ i.
        Picks c.all_svr_id c.robin_idx looks
          (robin_loop (suc (length c.all_svr_id)) c.all_svr_id looks i 0))
      start
      (robin_loop_lem c.all_svr_id c.robin_idx looks some_server (suc (length c.all_svr_id)) 0
        some_server (omega arith) (λ j p. absurd (omega arith)))
