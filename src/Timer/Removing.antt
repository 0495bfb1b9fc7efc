-- ===== src/Timer/Removing.antt =====
-- The sound tables of the manager, and what DelTimer leaves of them.
use common_fw.Common.{
  ℕ, ◌<◌, ◌≡◌, refl, inl, inr, true, false, none, some, ◌==◌, if◌then◌else◌, remove, exists,
  Option-cases, Bool-cases, arith,
}
use common_fw.Timer.{Timer, TimerManager, initialized, set_full, del_timer, found}

-- Every entry stands under its id in one of the tables, and has a channel of its own, which is empty.
pub record IsManaged (m : TimerManager) : Type 0 where
  pub exclusive : (i : ℕ) → exists (m.timers i) ≡ true → m.tickers i ≡ none
  pub own_id : (i : ℕ) (t : Timer) → found m i ≡ some t → t.id ≡ i
  pub is_made : (i : ℕ) (t : Timer) → found m i ≡ some t → t.close_chan < m.made
  pub is_empty : (i : ℕ) (t : Timer) → found m i ≡ some t → m.full t.close_chan ≡ false
  pub own_chan :
      (i j : ℕ) (t u : Timer)
      → found m i ≡ some t
      → found m j ≡ some u
      → t.close_chan ≡ u.close_chan
      → i ≡ j

pub initialized-IsManaged : IsManaged initialized
initialized-IsManaged = record {
  exclusive = λ i e. refl;
  own_id = λ i t e. absurd (cc);
  is_made = λ i t e. absurd (cc);
  is_empty = λ i t e. absurd (cc);
  own_chan = λ i j t u e f g. absurd (cc);
}

-- What DelTimer leaves: the id is not found, the others are as they were.
pub record Removed (id : ℕ) (m m' : TimerManager) : Type 0 where
  pub gone : found m' id ≡ none
  pub others : (j : ℕ) → (j == id) ≡ false → found m' j ≡ found m j

-- From the manager's tables and channels to those after a removal.
record Shrinks (id : ℕ) (t : Timer) (m m' : TimerManager) : Type 0 where
  tables :
      (j : ℕ)
      → (m'.timers j ≡ (if j == id then none else m.timers j))
        × (m'.tickers j ≡ (if j == id then none else m.tickers j))
  channels : (c : ℕ) → m'.full c ≡ (if c == t.close_chan then true else m.full c)
  number : m'.made ≡ m.made

Shrinks-found :
    (id : ℕ) (t : Timer) (m m' : TimerManager)
    → Shrinks id t m m'
    → (j : ℕ) → found m' j ≡ (if j == id then none else found m j)
Shrinks-found id t m m' s j =
    let (a, b) = s.tables j in
    elim (Bool-cases (j == id)) [
      | inl e ↦ (let a' = rw e at a in let b' = rw e at b in rw (a', b', e))
      | inr e ↦ (let a' = rw e at a in let b' = rw e at b in rw (a', b', e))
    ]

Shrinks-IsManaged :
    (id : ℕ) (t : Timer) (m m' : TimerManager)
    → IsManaged m
    → found m id ≡ some t
    → Shrinks id t m m'
    → IsManaged m' × Removed id m m'
Shrinks-IsManaged id t m m' i e s =
    let f = Shrinks-found id t m m' s in
    (
      record {
        exclusive = λ j h. (let (a, b) = s.tables j in ground (arith, i.exclusive j, a, b));
        own_id = λ j u h. ground (arith, f j, i.own_id j u);
        is_made = λ j u h. ground (arith, f j, i.is_made j u, s.number);
        is_empty = λ j u h.
            ground (arith, f j, i.is_empty j u, s.channels u.close_chan, i.own_chan j id u t);
        own_chan = λ j k u v h g c. ground (arith, f j, f k, i.own_chan j k u v);
      },
      record { gone = ground (arith, f id); others = λ j h. ground (arith, f j) },
    )

-- Either table's entry goes, with the channel filled.
timer-Shrinks :
    (id : ℕ) (t : Timer) (m : TimerManager)
    → IsManaged m
    → m.timers id ≡ some t
    → Shrinks id t m (record (set_full t.close_chan true m) { timers = remove m.timers id })
timer-Shrinks id t m i e = record {
  tables = λ j. (refl, from j);
  channels = λ c. refl;
  number = refl;
}
  where
    from : (j : ℕ) → m.tickers j ≡ (if j == id then none else m.tickers j)
    from j = elim (Bool-cases (j == id)) [
      | inl h ↦
          let same : j ≡ id = ground arith in
          let there_is : exists (m.timers j) ≡ true = rw same (rw e refl) in
          rw h (i.exclusive j there_is)
      | inr h ↦ rw h refl
    ]

ticker-Shrinks :
    (id : ℕ) (t : Timer) (m : TimerManager)
    → m.timers id ≡ none
    → Shrinks id t m (record (set_full t.close_chan true m) { tickers = remove m.tickers id })
ticker-Shrinks id t m e = record {
  tables = λ j. (from j, refl);
  channels = λ c. refl;
  number = refl;
}
  where
    from : (j : ℕ) → m.timers j ≡ (if j == id then none else m.timers j)
    from j = elim (Bool-cases (j == id)) [
      | inl h ↦ (let same : j ≡ id = ground arith in rw h (rw same e))
      | inr h ↦ rw h refl
    ]

-- DelTimer on sound tables never waits for a channel, which it would do with the lock held: it
-- returns, the tables stay sound, the id is found no more, and every other entry is as it was.
pub del_timer-IsManaged :
    (id : ℕ) (m : TimerManager)
    → IsManaged m
    → (m' : TimerManager) × (del_timer id m ≡ some m') × IsManaged m' × Removed id m m'
unfolding del_timer
del_timer-IsManaged id m i = elim (Option-cases (m.timers id)) [
  | inr (t, e) ↦
      let at : found m id ≡ some t = rw e refl in
      let empty = i.is_empty id t at in
      let (a, b) = Shrinks-IsManaged id t m _ i at (timer-Shrinks id t m i e) in
      (
        record (set_full t.close_chan true m) { timers = remove m.timers id },
        rw (e, del_timer) (rw empty refl),
        a,
        b,
      )
  | inl e ↦ elim (Option-cases (m.tickers id)) [
    | inr (t, f) ↦
        let at : found m id ≡ some t = rw (e, f) refl in
        let empty = i.is_empty id t at in
        let (a, b) = Shrinks-IsManaged id t m _ i at (ticker-Shrinks id t m e) in
        (
          record (set_full t.close_chan true m) { tickers = remove m.tickers id },
          rw (e, f, del_timer) (rw empty refl),
          a,
          b,
        )
    | inl f ↦
        (m, rw (e, f, del_timer) refl, i, record { gone = rw (e, f) refl; others = λ j h. refl })
  ]
]
