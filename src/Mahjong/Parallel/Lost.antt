-- ===== src/Mahjong/Parallel/Lost.antt =====
-- The search by goroutines may lose a win: a goroutine's answer is read back from the variable that
-- all share.
use common_fw.Common.{
  ℕ, zero, suc, ◌+◌, ◌≤◌, ◌≡◌, refl, inl, inr, Bool, true, false, List, [], ◌∷◌, ◌++◌, ◌==◌, length,
  map, arith, replicate, All, ap, subst, sym, length-replicate,
}
use common_fw.Mahjong.Wild.Search.{Any}
use common_fw.Mahjong.Parallel.{
  Worker, evaluates, sends, Race, writes, breaks, continues, ends, Works, here, there, leaves,
  start, Step, Steps, works, sent, receives, misses, gives, done, then_step, waits, returned, next,
  Caller,
}

-- Steps of the goroutines alone.
data Course : Bool → List Worker → Bool → List Worker → Type 0 where
  stays : (h : Bool) (ws : List Worker) → Course h ws h ws
  goes :
      {h k l : Bool} {ws vs us : List Worker}
      → Works h ws k vs
      → Course k vs l us
      → Course h ws l us

Course-trans :
    {h k l : Bool} {ws vs us : List Worker} → Course h ws k vs → Course k vs l us → Course h ws l us
Course-trans (stays h ws) d = d
Course-trans (goes x c) d = goes x (Course-trans c d)

Course-there :
    {h k : Bool} (w : Worker) {ws vs : List Worker}
    → Course h ws k vs
    → Course h (w ∷ ws) k (w ∷ vs)
Course-there w (stays h ws) = stays h (w ∷ ws)
Course-there w (goes x c) = goes (there w x) (Course-there w c)

-- A goroutine runs on its own until it sends.
evaluates-sends :
    (h : Bool) (bs : List Bool) (ws : List Worker)
    → (k : Bool) × Course h (evaluates bs ∷ ws) k (sends ∷ ws)
evaluates-sends h [] ws = (h, goes (here ws (ends h)) (stays h (sends ∷ ws)))
evaluates-sends h (true ∷ bs) ws =
    (true, goes (here ws (writes h true bs)) (goes (here ws (breaks bs)) (stays true (sends ∷ ws))))
evaluates-sends h (false ∷ bs) ws =
    let (k, c) = evaluates-sends false bs ws in
    (k, goes (here ws (writes h false bs)) (goes (here ws (continues bs)) c))

abbrev pub IsFalse : Bool → Type 0
IsFalse b = b ≡ false

-- A search that finds nothing.
abbrev pub IsMiss : List Bool → Type 0
IsMiss bs = All IsFalse bs × (1 ≤ length bs)

false-sends :
    (bs : List Bool) (ws : List Worker)
    → All IsFalse bs
    → Course false (evaluates bs ∷ ws) false (sends ∷ ws)
false-sends [] ws a = goes (here ws (ends false)) (stays false (sends ∷ ws))
false-sends (true ∷ bs) ws a = absurd (let e = a.0 in cc)
false-sends (false ∷ bs) ws a =
    goes (here ws (writes false false bs)) (goes (here ws (continues bs)) (false-sends bs ws a.1))

miss-sends :
    (h : Bool) (bs : List Bool) (ws : List Worker)
    → IsMiss bs
    → Course h (evaluates bs ∷ ws) false (sends ∷ ws)
miss-sends h [] ws a = absurd (let l = a.1 in omega arith)
miss-sends h (true ∷ bs) ws a = absurd (let e = a.0.0 in cc)
miss-sends h (false ∷ bs) ws a =
    goes (here ws (writes h false bs)) (goes (here ws (continues bs)) (false-sends bs ws a.0.1))

abbrev all_send : List (List Bool) → List Worker
all_send branches = replicate (length branches) sends

all-sends :
    (h : Bool) (branches : List (List Bool))
    → (k : Bool) × Course h (map evaluates branches) k (all_send branches)
all-sends h [] = (h, stays h [])
all-sends h (bs ∷ branches) =
    let (k, c) = evaluates-sends h bs (map evaluates branches) in
    let (l, d) = all-sends k branches in (l, Course-trans c (Course-there sends d))

-- The goroutine that finds nothing writes last.
miss_last :
    (h : Bool) (branches : List (List Bool))
    → Any IsMiss branches
    → Course h (map evaluates branches) false (all_send branches)
miss_last h [] a = absurd a
miss_last h (bs ∷ branches) (inl a) =
    let (k, c) = all-sends h branches in
    Course-trans (Course-there (evaluates bs) c) (miss-sends k bs (all_send branches) a)
miss_last h (bs ∷ branches) (inr a) =
    let (k, c) = evaluates-sends h bs (map evaluates branches) in
    Course-trans c (Course-there sends (miss_last k branches a))

module _ (capacity : ℕ) where
  Steps-trans : {s t u : Race} → Steps capacity s t → Steps capacity t u → Steps capacity s u
  Steps-trans (done s) q = q
  Steps-trans (then_step x r) q = then_step x (Steps-trans r q)

  Course-Steps :
      {h k : Bool} {ws vs : List Worker} (chan : List Bool) (c : Caller)
      → Course h ws k vs
      → Steps capacity
          (record { is_hu = h; workers = ws; res_chan = chan; caller = c })
          (record { is_hu = k; workers = vs; res_chan = chan; caller = c })
  Course-Steps chan c (stays h ws) = done _
  Course-Steps chan c (goes x r) = then_step (works chan c x) (Course-Steps chan c r)

  abbrev state : List Worker → List Bool → Caller → Race
  state ws chan c = record { is_hu = false; workers = ws; res_chan = chan; caller = c }

  replicate_end : (n : ℕ) → replicate n false ++ (false ∷ []) ≡ replicate (suc n) false
  replicate_end zero = refl
  replicate_end (suc n) = ap (◌∷◌ false) (replicate_end n)

  -- All send what they read.
  all-send :
      (n m k : ℕ) (c : Caller)
      → n + m ≡ k
      → k ≤ capacity
      → Steps capacity
          (state (replicate n sends) (replicate m false) c)
          (state [] (replicate k false) c)
  all-send zero m k c e h =
      let f : m ≡ k = omega arith in
      subst (λ j. Steps capacity (state [] (replicate m false) c) (state [] (replicate j false) c))
        f (done _)
  all-send (suc n) m k c e h =
      let len = length-replicate m false in
      then_step
        (subst
          (λ chan.
            Step capacity (state (replicate (suc n) sends) (replicate m false) c)
              (state (replicate n sends) chan c))
          (replicate_end m)
          (sent false (replicate m false) c (leaves (replicate n sends)) (omega arith)))
        (all-send n (suc m) k c (omega arith) h)

  next_lem : (n : ℕ) → next (suc (suc n)) ≡ waits (suc n)
  next_lem n = ground arith

  -- All that is received is false.
  all_received :
      (n : ℕ)
      → Steps capacity
          (state [] (replicate (suc n) false) (waits (suc n)))
          (state [] [] (returned false))
  all_received zero =
      then_step (receives false false [] [] 1)
        (then_step (misses [] [] 1) (then_step (gives false [] []) (done _)))
  all_received (suc n) =
      then_step (receives false false [] (replicate (suc n) false) (suc (suc n))) (
        then_step (misses [] (replicate (suc n) false) (suc (suc n))) (
          subst
            (λ c.
              Steps capacity (state [] (replicate (suc n) false) c) (state [] [] (returned false)))
            (sym (next_lem n)) (all_received n)))

-- The bug: if one of the goroutines finds nothing, the function may return false, whatever the
-- others find. There are no more goroutines than the channel has places.
pub Steps-loses :
    (capacity : ℕ) (branches : List (List Bool))
    → length branches ≤ capacity
    → Any IsMiss branches
    → (s : Race) × Steps capacity (start branches) s × (s.caller ≡ returned false)
Steps-loses capacity [] h a = absurd a
Steps-loses capacity (bs ∷ branches) h a =
    let n = length branches in
    let some_left : (suc n == 0) ≡ false = ground arith in
    (
      state capacity [] [] (returned false),
      rw some_left (
          Steps-trans capacity
            (Course-Steps capacity [] (waits (suc n)) (miss_last false (bs ∷ branches) a))
            (Steps-trans capacity
              (all-send capacity (suc n) 0 (suc n) (waits (suc n)) (omega arith) h)
              (all_received capacity n))),
      refl,
    )
