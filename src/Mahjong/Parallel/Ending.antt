-- ===== src/Mahjong/Parallel/Ending.antt =====
-- The search by goroutines ends: no run goes on for ever, and none stops early.
use common_fw.Common.{
  ℕ, suc, ◌+◌, ◌-◌, ◌*◌, ◌≤◌, ◌<◌, ◌≡◌, refl, ◌⊎◌, inl, inr, Bool, true, false, List, [], ◌∷◌, ◌++◌,
  ◌==◌, leb, ap, subst, sym, length, length-append, map, Bool-cases, arith,
}
use common_fw.Mahjong.Parallel.{
  Worker, evaluates, tests, sends, Race, Work, writes, breaks, continues, ends, Works, here, there,
  Leaves, leaves, passes, start, Step, Steps, works, sent, receives, wins, misses, gives, done,
  then_step, Caller, waits, received, returns, returned, next, number_of,
}

-- An upper bound of the steps that are left.
worker_steps : Worker → ℕ
worker_steps (evaluates bs) = 4 + 2 * length bs
worker_steps (tests bs) = 5 + 2 * length bs
worker_steps sends = 3

total_steps : List Worker → ℕ
total_steps [] = 0
total_steps (w ∷ ws) = worker_steps w + total_steps ws

caller_steps : Caller → ℕ
caller_steps (waits n) = 1
caller_steps (received n) = 2
caller_steps returns = 1
caller_steps (returned b) = 0

steps_left : Race → ℕ
steps_left s = total_steps s.workers + 2 * length s.res_chan + caller_steps s.caller

-- The steps that a search by goroutines may take: each answer is written and tested, and each
-- goroutine's last answer is sent, received and tested.
abbrev pub step_bound : List (List Bool) → ℕ
step_bound [] = 1
step_bound (bs ∷ branches) = 4 + 2 * length bs + step_bound branches

Work-shorter : {h k : Bool} {w v : Worker} → Work h w k v → worker_steps v < worker_steps w
unfolding worker_steps
Work-shorter (writes h b rest) = omega arith
Work-shorter (breaks rest) = omega arith
Work-shorter (continues rest) = omega arith
Work-shorter (ends h) = omega arith

Works-shorter :
    {h k : Bool} {ws vs : List Worker} → Works h ws k vs → total_steps vs < total_steps ws
unfolding total_steps
Works-shorter (here ws x) = omega (arith, Work-shorter x)
Works-shorter (there w x) = omega (arith, Works-shorter x)

Works-length : {h k : Bool} {ws vs : List Worker} → Works h ws k vs → length vs ≡ length ws
Works-length (here ws x) = refl
Works-length (there w x) = omega (arith, Works-length x)

Leaves-shorter :
    {ws vs : List Worker}
    → Leaves ws vs
    → (total_steps ws ≡ 3 + total_steps vs) × (length ws ≡ suc (length vs))
unfolding total_steps worker_steps
Leaves-shorter (leaves ws) = (refl, refl)
Leaves-shorter (passes w x) = let (a, b) = Leaves-shorter x in (omega (arith, a), omega (arith, b))

next_steps : (n : ℕ) → caller_steps (next n) ≡ 1
unfolding caller_steps
next_steps n = ground arith

Step-shorter : {capacity : ℕ} {s u : Race} → Step capacity s u → steps_left u < steps_left s
unfolding steps_left caller_steps
Step-shorter (works chan c x) = omega (arith, Works-shorter x)
Step-shorter (sent h chan c x room) =
    let (a, b) = Leaves-shorter x in omega (arith, a, length-append chan (h ∷ []))
Step-shorter (receives h v ws chan n) = omega arith
Step-shorter (wins ws chan n) = omega arith
Step-shorter (misses ws chan n) = omega (arith, next_steps n)
Step-shorter (gives h ws chan) = omega arith

number_of_bound :
    {capacity : ℕ} {s u : Race} (r : Steps capacity s u)
    → number_of capacity r + steps_left u ≤ steps_left s
number_of_bound (done s) = omega arith
number_of_bound (then_step x r) = omega (arith, Step-shorter x, number_of_bound r)

-- The channel has room for every goroutine, and the caller waits for as many as are still to come.
abbrev IsExpected : ℕ → Caller → Type 0
IsExpected n (waits k) = (n ≡ k) × (1 ≤ k)
IsExpected n (received k) = (suc n ≡ k)
IsExpected n c = Unit

record IsCounted (capacity : ℕ) (s : Race) : Type 0 where
  room : length s.workers + length s.res_chan ≤ capacity
  expected : IsExpected (length s.workers + length s.res_chan) s.caller

next-IsExpected : (n k : ℕ) → suc n ≡ k → IsExpected n (next k)
next-IsExpected n k e = elim (Bool-cases (leb (k - 1) 0)) [
  | inl f ↦ rw f tt
  | inr f ↦ rw f (ground arith)
]

Step-IsCounted :
    {capacity : ℕ} {s u : Race} → Step capacity s u → IsCounted capacity s → IsCounted capacity u
Step-IsCounted (works chan c x) i =
    let e = Works-length x in
    record {
      room = (let r = i.room in omega arith);
      expected = subst (λ n. IsExpected (n + length chan) c) (sym e) i.expected;
    }
Step-IsCounted (sent h {ws} {vs} chan c x room) i =
    let (a, b) = Leaves-shorter x in
    let len : length ws + length chan ≡ length vs + length (chan ++ (h ∷ [])) =
      omega (arith, length-append chan (h ∷ [])) in
    record {
      room = (let r = i.room in omega arith);
      expected = subst (λ n. IsExpected n c) len i.expected;
    }
Step-IsCounted (receives h v ws chan n) i = record {
  room = (let r = i.room in omega arith);
  expected = (let e = i.expected in omega arith);
}
Step-IsCounted (wins ws chan n) i = record { room = i.room; expected = tt }
Step-IsCounted (misses ws chan n) i = record {
  room = i.room;
  expected = next-IsExpected _ n i.expected;
}
Step-IsCounted (gives h ws chan) i = record { room = i.room; expected = tt }

Steps-IsCounted :
    {capacity : ℕ} {s u : Race} → Steps capacity s u → IsCounted capacity s → IsCounted capacity u
Steps-IsCounted (done s) i = i
Steps-IsCounted (then_step x r) i = Steps-IsCounted r (Step-IsCounted x i)

start_length : (branches : List (List Bool)) → length (map evaluates branches) ≡ length branches
start_length [] = refl
start_length (b ∷ bs) = ap suc (start_length bs)

start_steps :
    (branches : List (List Bool)) → total_steps (map evaluates branches) + 1 ≡ step_bound branches
unfolding total_steps worker_steps
start_steps [] = refl
start_steps (b ∷ bs) = omega (arith, start_steps bs)

start-IsCounted :
    (capacity : ℕ) (branches : List (List Bool))
    → length branches ≤ capacity
    → IsCounted capacity (start branches)
start-IsCounted capacity branches h =
    let e = start_length branches in
    record {
      room = omega arith;
      expected = elim (Bool-cases (length branches == 0)) [
        | inl f ↦ rw f tt
        | inr f ↦ rw f (omega arith, ground arith)
      ];
    }

-- The function has returned, and its goroutines have ended.
abbrev pub IsFinished : Race → Type 0
IsFinished s = (s.workers ≡ []) × (b : Bool) × (s.caller ≡ returned b)

-- A goroutine can go on, if the channel has room.
Works-next : (h : Bool) (w : Worker) → (w ≡ sends) ⊎ ((k : Bool) × (v : Worker) × Work h w k v)
Works-next h (evaluates []) = inr (h, sends, ends h)
Works-next h (evaluates (b ∷ bs)) = inr (b, tests bs, writes h b bs)
Works-next true (tests bs) = inr (true, sends, breaks bs)
Works-next false (tests bs) = inr (false, evaluates bs, continues bs)
Works-next h sends = inl refl

abbrev state : Bool → List Worker → List Bool → Caller → Race
state h ws chan c = record { is_hu = h; workers = ws; res_chan = chan; caller = c }

IsCounted-next :
    (capacity : ℕ) (s : Race)
    → IsCounted capacity s
    → IsFinished s ⊎ ((u : Race) × Step capacity s u)
IsCounted-next capacity s i = from s.is_hu s.workers s.res_chan s.caller i.room i.expected
  where
    from :
        (h : Bool) (ws : List Worker) (chan : List Bool) (c : Caller)
        → length ws + length chan ≤ capacity
        → IsExpected (length ws + length chan) c
        → IsFinished (state h ws chan c) ⊎ ((u : Race) × Step capacity (state h ws chan c) u)
    from h (w ∷ ws) chan c r e = elim (Works-next h w) [
      | inl f ↦ inr (
        state h ws (chan ++ (h ∷ [])) c,
        subst (λ v. Step capacity (state h (v ∷ ws) chan c) (state h ws (chan ++ (h ∷ [])) c))
            (sym f) (sent h chan c (leaves ws) (omega arith)),
      )
      | inr (k, v, x) ↦ inr (state k (v ∷ ws) chan c, works chan c (here ws x))
    ]
    from h [] (v ∷ chan) (waits n) r e = inr (_, receives h v [] chan n)
    from h [] [] (waits n) r e = absurd (omega arith)
    from true [] chan (received n) r e = inr (_, wins [] chan n)
    from false [] chan (received n) r e = inr (_, misses [] chan n)
    from h [] chan returns r e = inr (_, gives h [] chan)
    from h [] chan (returned b) r e = inl (refl, b, refl)

-- With no more goroutines than the channel has places, no run has more steps than `step_bound`, and
-- whenever a step is not possible the function has returned and all its goroutines have ended.
pub Steps-IsBounded :
    (capacity : ℕ) (branches : List (List Bool)) (s : Race)
    → length branches ≤ capacity
    → (r : Steps capacity (start branches) s)
    → (number_of capacity r ≤ step_bound branches)
      × (IsFinished s ⊎ ((u : Race) × Step capacity s u))
unfolding steps_left caller_steps
Steps-IsBounded capacity branches s h r =
    let first : caller_steps (start branches).caller ≡ 1 =
      elim (Bool-cases (length branches == 0)) [ inl f ↦ rw f refl | inr f ↦ rw f refl ] in
    (
      omega (arith, number_of_bound r, start_steps branches, first),
      IsCounted-next capacity s (Steps-IsCounted r (start-IsCounted capacity branches h)),
    )
