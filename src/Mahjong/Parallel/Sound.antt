-- ===== src/Mahjong/Parallel/Sound.antt =====
-- The goroutines' shared result is true only if a search found a win.
use common_fw.Common.{
  ℕ, ◌-◌, ◌≡◌, refl, inl, inr, Bool, true, false, List, [], ◌∷◌, ◌==◌, leb, All, All-append, length,
  map, Bool-cases,
}
use common_fw.Mahjong.Wild.Search.{Any}
use common_fw.Mahjong.Parallel.{
  Worker, evaluates, tests, sends, Race, Work, writes, breaks, continues, ends, Works, here, there,
  Leaves, leaves, passes, start, Step, Steps, works, sent, receives, wins, misses, gives, done,
  then_step, Caller, returned,
}

abbrev pub IsTrue : Bool → Type 0
IsTrue b = b ≡ true

-- The answers that a goroutine may still write.
abbrev pub answers : Worker → List Bool
answers (evaluates bs) = bs
answers (tests bs) = bs
answers sends = []

abbrev pub result : Caller → Bool
result (returned b) = b
result c = false

-- Wherever the value true stands, `P` holds.
pub record IsBacked (P : Type 0) (s : Race) : Type 0 where
  pub shared : s.is_hu ≡ true → P
  pub ahead : All (λ w. Any IsTrue (answers w) → P) s.workers
  pub queued : All (λ b. b ≡ true → P) s.res_chan
  pub given : result s.caller ≡ true → P

abbrev Backed : Type 0 → Worker → Type 0
Backed P w = Any IsTrue (answers w) → P

Leaves-Backed :
    (P : Type 0) {ws vs : List Worker} → Leaves ws vs → All (Backed P) ws → All (Backed P) vs
Leaves-Backed P (leaves ws) q = q.1
Leaves-Backed P (passes w x) q = (q.0, Leaves-Backed P x q.1)

module _ {P : Type 0} where
  Work-Backed :
      {h k : Bool} {w v : Worker}
      → Work h w k v
      → (h ≡ true → P)
      → Backed P w
      → (k ≡ true → P) × Backed P v
  Work-Backed (writes h b rest) p q = (λ e. q (inl e), λ a. q (inr a))
  Work-Backed (breaks rest) p q = (p, λ a. absurd a)
  Work-Backed (continues rest) p q = (p, q)
  Work-Backed (ends h) p q = (p, q)

  Works-Backed :
      {h k : Bool} {ws vs : List Worker}
      → Works h ws k vs
      → (h ≡ true → P)
      → All (Backed P) ws
      → (k ≡ true → P) × All (Backed P) vs
  Works-Backed (here ws x) p q = let (a, b) = Work-Backed x p q.0 in (a, (b, q.1))
  Works-Backed (there w x) p q = let (a, b) = Works-Backed x p q.1 in (a, (q.0, b))

  Step-IsBacked : {capacity : ℕ} {s u : Race} → Step capacity s u → IsBacked P s → IsBacked P u
  Step-IsBacked (works chan c x) i =
      let (a, b) = Works-Backed x i.shared i.ahead in
      record { shared = a; ahead = b; queued = i.queued; given = i.given }
  Step-IsBacked (sent h chan c x room) i = record {
    shared = i.shared;
    ahead = Leaves-Backed P x i.ahead;
    queued = All-append _ chan (h ∷ []) i.queued (i.shared, tt);
    given = i.given;
  }
  Step-IsBacked (receives h v ws chan n) i = record {
    shared = i.queued.0;
    ahead = i.ahead;
    queued = i.queued.1;
    given = λ e. absurd (cc);
  }
  Step-IsBacked (wins ws chan n) i = record {
    shared = i.shared;
    ahead = i.ahead;
    queued = i.queued;
    given = λ e. absurd (cc);
  }
  Step-IsBacked (misses ws chan n) i = record {
    shared = i.shared;
    ahead = i.ahead;
    queued = i.queued;
    given = λ e. absurd (elim (Bool-cases (leb (n - 1) 0)) [
      | inl f ↦ (let e' = rw f at e in cc)
      | inr f ↦ (let e' = rw f at e in cc)
    ]);
  }
  Step-IsBacked (gives h ws chan) i = record {
    shared = i.shared;
    ahead = i.ahead;
    queued = i.queued;
    given = i.shared;
  }

  Steps-IsBacked : {capacity : ℕ} {s u : Race} → Steps capacity s u → IsBacked P s → IsBacked P u
  Steps-IsBacked (done s) i = i
  Steps-IsBacked (then_step x r) i = Steps-IsBacked r (Step-IsBacked x i)

start_workers :
    {P : Type 0} (branches : List (List Bool))
    → (Any (Any IsTrue) branches → P)
    → All (λ w. Any IsTrue (answers w) → P) (map evaluates branches)
start_workers [] f = tt
start_workers (b ∷ bs) f = (λ a. f (inl a), start_workers bs (λ a. f (inr a)))

start-IsBacked :
    {P : Type 0} (branches : List (List Bool))
    → (Any (Any IsTrue) branches → P)
    → IsBacked P (start branches)
start-IsBacked branches f = record {
  shared = λ e. absurd (cc);
  ahead = start_workers branches f;
  queued = tt;
  given = λ e. absurd (elim (Bool-cases (length branches == 0)) [
    | inl g ↦ (let e' = rw g at e in cc)
    | inr g ↦ (let e' = rw g at e in cc)
  ]);
}

-- A search by goroutines that returns true has found a win: one of their answers is true.
pub Steps-IsFound :
    (capacity : ℕ) (branches : List (List Bool)) (s : Race)
    → Steps capacity (start branches) s
    → s.caller ≡ returned true
    → Any (Any IsTrue) branches
Steps-IsFound capacity branches s r e =
    let i = Steps-IsBacked r (start-IsBacked branches (λ a. a)) in
    let given = i.given in given (rw e refl)
