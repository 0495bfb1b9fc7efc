-- ===== src/Net/Client/Fair.antt =====
-- component/net/client/client.go: what successive messages by round robin reach.
use common_fw.Common.{
  ℕ, zero, suc, ◌+◌, ◌-◌, ◌%◌, ◌≤◌, ◌<◌, ◌≡◌, refl, List, some, length, Outcome, ok, ltb, ltb→lt,
  Bool-cases, inl, inr, subst, ◌∙◌, ap, arith,
}
use common_fw.Net.Client.{Conn, Client, get_elem?}
use common_fw.Net.Client.Routing.{Links, live, Robin, robin, with_robin_idx}
use native.Mathlib.Nat.{mod-add-mod, mod-eq_of_lt, mod-lt, add-mod_right}
use common_fw.Net.Client.Robin.{others, server_at, IsDown, IsUp, Picks, robin-Picks}

-- One of the next messages by round robin takes the connection; `looks t k` has the links at the
-- k-th look of the t-th message.
pub data Serves (looks : ℕ → ℕ → Links) (conn : Conn) : ℕ → ℕ → Client → Type 0 where
  now :
      {calls t : ℕ} {c : Client} (r : Robin)
      → robin c (looks t) ≡ ok r
      → r.conn ≡ some conn
      → Serves looks conn (suc calls) t c
  later :
      {calls t : ℕ} {c : Client} (r : Robin)
      → robin c (looks t) ≡ ok r
      → Serves looks conn calls (t + 1) (with_robin_idx r.next_idx c)
      → Serves looks conn (suc calls) t c

others_alone : (looks : ℕ → Links) → ((k : ℕ) → (looks k).moved ≡ 0) → (k : ℕ) → others looks k ≡ 0
others_alone looks alone zero = refl
others_alone looks alone (suc k) = omega (arith, others_alone looks alone k, alone (suc k))

place-from : (n idx p : ℕ) → idx < n → p < n → (d : ℕ) × (d < n) × ((idx + d) % n ≡ p)
place-from n idx p h i = elim (Bool-cases (ltb p idx)) [
  | inl e ↦
      (let below : p < idx = ground arith in
        (
          p + n - idx,
          omega arith,
          ap (λ x. x % n) (omega arith) ∙ (add-mod_right p n ∙ mod-eq_of_lt i),
        ))
  | inr e ↦
      (let above : idx ≤ p = ground arith in
        (p - idx, omega arith, ap (λ x. x % n) (omega arith) ∙ mod-eq_of_lt i))
]

module _ (looks : ℕ → ℕ → Links) (id : ℕ) (conn : Conn) (alone : (t k : ℕ) → (looks t k).moved ≡ 0)
    (up : (t k : ℕ) → live (looks t k) id ≡ some conn) where
  -- The place d behind idx.
  HasAt : List ℕ → ℕ → ℕ → Type 0
  HasAt ids idx d = get_elem? ids ((idx + d) % length ids) ≡ some id

  looked_at :
      (ids : List ℕ) (idx d t : ℕ) → HasAt ids idx d → server_at ids idx (looks t) d ≡ some id
  unfolding HasAt
  looked_at ids idx d t e =
      ap (λ x. get_elem? ids (x % length ids)) (omega (arith, others_alone (looks t) (alone t) d))
      ∙ e

  -- A look at the server does not find it down, and takes its connection.
  is_up : (ids : List ℕ) (idx d t : ℕ) → HasAt ids idx d → ¬ IsDown ids idx (looks t) d
  is_up ids idx d t e h =
      let there = looked_at ids idx d t e in
      let found = h.1 in let down = h.2 in let held = up t d in absurd (cc)

  takes :
      (ids : List ℕ) (idx d t : ℕ) (conn' : Conn)
      → HasAt ids idx d
      → IsUp ids idx (looks t) d conn'
      → conn' ≡ conn
  takes ids idx d t conn' e h =
      let there = looked_at ids idx d t e in
      let found = h.1 in let taken = h.2 in let held = up t d in cc

  rest-HasAt :
      (ids : List ℕ) (idx m d t : ℕ)
      → m < d
      → HasAt ids idx d
      → HasAt ids ((idx + m + others (looks t) m + 1) % length ids) (d - suc m)
  unfolding HasAt
  rest-HasAt ids idx m d t h e =
      ap (get_elem? ids) (
        mod-add-mod (idx + m + others (looks t) m + 1) (length ids) (d - suc m)
        ∙ ap (λ x. x % length ids) (omega (arith, others_alone (looks t) (alone t) m)))
      ∙ e

  Reaches : ℕ → ℕ → Type 0
  Reaches calls t =
      (c : Client) (d : ℕ)
      → c.robin_idx < length c.all_svr_id
      → d < length c.all_svr_id
      → d < calls
      → HasAt c.all_svr_id c.robin_idx d
      → Serves looks conn calls t c

  first_call :
      (calls t : ℕ)
      → Reaches calls (t + 1)
      → (c : Client) (d : ℕ) → c.robin_idx < length c.all_svr_id
      → d < length c.all_svr_id
      → d < suc calls
      → HasAt c.all_svr_id c.robin_idx d
      → (o : Outcome Robin) → robin c (looks t) ≡ o
      → Picks c.all_svr_id c.robin_idx (looks t) o
      → Serves looks conn (suc calls) t c
  unfolding Reaches
  first_call calls t rest c d h i k e o run (Picks.gives_up m n down) =
      absurd (is_up c.all_svr_id c.robin_idx d t e (down d i))
  first_call calls t rest c d h i k e o run (Picks.picks m conn' p down found) =
      elim (Bool-cases (ltb m d)) [
        | inl f ↦
            (let before = ltb→lt m d f in
              Serves.later _ run (
                rest _ (d - suc m) (mod-lt (c.robin_idx + m + others (looks t) m + 1) (omega arith))
                  (omega arith) (omega arith) (rest-HasAt c.all_svr_id c.robin_idx m d t before e)))
        | inr f ↦ elim (Bool-cases (ltb d m)) [
          | inl g ↦ absurd (is_up c.all_svr_id c.robin_idx d t e (down d (ltb→lt d m g)))
          | inr g ↦
              let same : m ≡ d = ground arith in
              Serves.now _ run (
                ap some (
                  takes c.all_svr_id c.robin_idx d t conn' e
                    (subst (λ x. IsUp c.all_svr_id c.robin_idx (looks t) x conn') same found)))
        ]
      ]

  reaches : (calls t : ℕ) → Reaches calls t
  unfolding Reaches
  reaches zero t c d h i k e = absurd (omega arith)
  reaches (suc calls) t c d h i k e =
      first_call calls t (reaches calls (t + 1)) c d h i k e (robin c (looks t)) refl
        (robin-Picks c (looks t) h)

-- A server whose connection stays up is not passed over: of as many successive messages by round
-- robin as there are servers, one takes its connection, whatever happens to the other connections
-- before and during these messages. The condition is that no other call moves robinIdx meanwhile.
pub robin-Serves :
    (looks : ℕ → ℕ → Links) (c : Client) (p id : ℕ) (conn : Conn)
    → c.robin_idx < length c.all_svr_id
    → p < length c.all_svr_id
    → get_elem? c.all_svr_id p ≡ some id
    → ((t k : ℕ) → (looks t k).moved ≡ 0)
    → ((t k : ℕ) → live (looks t k) id ≡ some conn)
    → Serves looks conn (length c.all_svr_id) 0 c
unfolding Reaches HasAt
robin-Serves looks c p id conn h i e alone up =
    let from = place-from (length c.all_svr_id) c.robin_idx p h i in
    reaches looks id conn alone up (length c.all_svr_id) 0 c from.0 h from.1 from.1
      (ap (get_elem? c.all_svr_id) from.2 ∙ e)
