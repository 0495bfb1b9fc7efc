-- ===== src/Net/Framing/Loop.antt =====
-- The inner loop of recv on the packets that SendMsg builds.
use common_fw.Common.{
  uint32, ℕ, zero, suc, ◌+◌, ◌≤◌, ◌<◌, ◌≡◌, refl, ap, ◌∙◌, ◌⊎◌, inl, inr, List, [], ◌∷◌, ◌++◌, ltb,
  leb, length, arith, All, Bool-cases, length-append,
}
use mathlib.Core.List.{append_assoc}
use common_fw.Net.Framing.{
  NetMsg, packet, PipeResult, written, timeout, closed, failed, await_write, Round, goes_on,
  packet_loop,
}
use common_fw.Net.Framing.Fields.{
  IsSendable, packets, length-packet, packet-size, packet-magic, packet-message, packet-rest,
  front-size, front-packet,
}

-- The pipe takes every message, perhaps after time-outs.
abbrev pub IsOpen : List PipeResult → Type 0
IsOpen = All (λ r. (r ≡ written) ⊎ (r ≡ timeout))

-- What a round leaves in the buffer is no whole packet.
abbrev pub IsIncomplete : List ℕ → List NetMsg → Type 0
IsIncomplete rest [] = rest ≡ []
IsIncomplete rest (m ∷ ms) = length rest < length (packet m)

-- A round on a part of a stream of packets: it goes on, has delivered the messages whose packets
-- are complete, and keeps the rest.
pub record Delivers (more : List ℕ) (ms before : List NetMsg) (round : Round) : Type 0 where
  pub new : List NetMsg
  pub later : List NetMsg
  pub rest : List ℕ
  pub pipe : List PipeResult
  pub still_open : IsOpen pipe
  pub ends : round ≡ goes_on (before ++ new) rest pipe
  pub split : ms ≡ new ++ later
  pub remains : rest ++ more ≡ packets later
  pub incomplete : IsIncomplete rest later

pub await_write-IsOpen :
    (pipe : List PipeResult)
    → IsOpen pipe
    → (pipe' : List PipeResult) × (await_write pipe ≡ (written, pipe')) × IsOpen pipe'
unfolding await_write
await_write-IsOpen [] o = ([], refl, tt)
await_write-IsOpen (written ∷ rs) o = (rs, refl, o.1)
await_write-IsOpen (timeout ∷ rs) o = await_write-IsOpen rs o.1
await_write-IsOpen (closed ∷ rs) o = absurd (ground arith)
await_write-IsOpen (failed ∷ rs) o = absurd (ground arith)

-- One round of the inner loop on a whole packet.
module _ (fuel : ℕ) (m : NetMsg) (h : IsSendable m) (rest : List ℕ) (before : List NetMsg)
    (pipe pipe' : List PipeResult) (w : await_write pipe ≡ (written, pipe')) where
  pub loop_last :
      (length rest ≤ 8) ⊎ ((uint32 rest < 65536) × (length rest < uint32 rest))
      → packet_loop (suc fuel) (packet m ++ rest) before pipe
        ≡ goes_on (before ++ (m ∷ [])) rest pipe'
  unfolding packet_loop
  loop_last last = ground (
    arith,
    packet-size m rest h,
    packet-magic m rest,
    packet-message m rest h,
    packet-rest m rest h,
  )

  pub loop_more :
      8 < length rest
      → uint32 rest < 65536
      → uint32 rest ≤ length rest
      → packet_loop (suc fuel) (packet m ++ rest) before pipe
        ≡ packet_loop fuel rest (before ++ (m ∷ [])) pipe'
  unfolding packet_loop
  loop_more a b c = ground (
    arith,
    packet-size m rest h,
    packet-magic m rest,
    packet-message m rest h,
    packet-rest m rest h,
  )

pub nil-of-append : (xs ys : List ℕ) → xs ++ ys ≡ [] → xs ≡ []
nil-of-append [] ys e = refl
nil-of-append (x ∷ xs) ys e = cc

step-Delivers :
    (m : NetMsg) (ms before : List NetMsg) (more : List ℕ) (round : Round)
    → Delivers more ms (before ++ (m ∷ [])) round
    → Delivers more (m ∷ ms) before round
step-Delivers m ms before more round d = record {
  new = m ∷ d.new;
  later = d.later;
  rest = d.rest;
  pipe = d.pipe;
  still_open = d.still_open;
  ends = d.ends ∙ ap (λ x. goes_on x d.rest d.pipe) (append_assoc before (m ∷ []) d.new);
  split = ap (λ x. m ∷ x) d.split;
  remains = d.remains;
  incomplete = d.incomplete;
}

last-Delivers :
    (m : NetMsg) (ms before : List NetMsg) (rest more : List ℕ) (pipe : List PipeResult)
    (round : Round)
    → IsOpen pipe
    → round ≡ goes_on (before ++ (m ∷ [])) rest pipe
    → rest ++ more ≡ packets ms
    → IsIncomplete rest ms
    → Delivers more (m ∷ ms) before round
last-Delivers m ms before rest more pipe round o e r c = record {
  new = m ∷ [];
  later = ms;
  rest = rest;
  pipe = pipe;
  still_open = o;
  ends = e;
  split = refl;
  remains = r;
  incomplete = c;
}

-- The inner loop delivers the whole packets at the front of the buffer.
pub loop-Delivers :
    (m : NetMsg) (ms : List NetMsg) (fuel : ℕ) (buf more : List ℕ) (before : List NetMsg)
    (pipe : List PipeResult)
    → All IsSendable (m ∷ ms)
    → IsOpen pipe
    → buf ++ more ≡ packets (m ∷ ms)
    → length (packet m) ≤ length buf
    → length buf ≤ fuel
    → Delivers more (m ∷ ms) before (packet_loop fuel buf before pipe)
unfolding packets
loop-Delivers m ms zero buf more before pipe h o e l f = absurd (omega (arith, length-packet m))
loop-Delivers m [] (suc fuel) buf more before pipe h o e l f =
    let (rest, eb, er) = front-packet buf more [] m e l in
    let (pipe', w, o') = await_write-IsOpen pipe o in
    let none_left = nil-of-append rest more er in
    rw eb (
      last-Delivers m [] before rest more pipe' _ o'
        (loop_last fuel m h.0 rest before pipe pipe' w (inl (rw none_left (omega arith)))) er
        none_left)
loop-Delivers m (m2 ∷ ms) (suc fuel) buf more before pipe h o e l f =
    let (rest, eb, er) = front-packet buf more (packets (m2 ∷ ms)) m e l in
    let (pipe', w, o') = await_write-IsOpen pipe o in
    let len2 = length-packet m2 in
    let shorter : length rest + 1 ≤ length buf =
      rw eb (omega (arith, length-append (packet m) rest, length-packet m)) in
    rw eb (elim (Bool-cases (ltb (length rest) (length (packet m2)))) [
      | inl part ↦
          last-Delivers m (m2 ∷ ms) before rest more pipe' _ o'
            (loop_last fuel m h.0 rest before pipe pipe' w (cut rest er (ground arith))) er
            (ground arith)
      | inr whole ↦
          let size2 = front-size rest more (packets ms) m2 h.1.0 er (ground (arith, len2)) in
          step-Delivers m (m2 ∷ ms) before more _ (
            rw
              (loop_more fuel m h.0 rest before pipe pipe' w (ground (arith, len2))
                (let small = h.1.0 in omega (arith, size2)) (ground (arith, len2, size2)))
              (loop-Delivers m2 ms fuel rest more (before ++ (m ∷ [])) pipe' h.1 o' er
                (ground arith) (omega arith)))
    ])
  where
    cut :
        (rest : List ℕ)
        → rest ++ more ≡ packets (m2 ∷ ms)
        → length rest < length (packet m2)
        → (length rest ≤ 8) ⊎ ((uint32 rest < 65536) × (length rest < uint32 rest))
    cut rest er part = elim (Bool-cases (leb (length rest) 8)) [
      | inl short ↦ inl (ground arith)
      | inr long ↦
          let size2 = front-size rest more (packets ms) m2 h.1.0 er (ground arith) in
          inr (let small = h.1.0 in omega (arith, size2), omega (arith, size2, length-packet m2))
    ]
