-- ===== src/Net/Sending/Order.antt =====
-- What send writes is what the pipe held, in order.
use common_fw.Common.{
  ℕ, ◌≡◌, refl, sym, ◌∙◌, ap, Bool, true, List, [], ◌∷◌, ◌++◌, ltb, ◌==◌, if◌then◌else◌, length,
  Bool-cases, arith, All, ◌/◌, inl, inr,
}
use mathlib.Core.List.{append_assoc, append-nil}
use common_fw.Net.Framing.{NetMsg, socket_buf_size, PipeResult, goes_on, recv_all}
use common_fw.Net.Framing.Fields.{IsSendable, packets}
use common_fw.Net.Framing.Loop.{IsOpen}
use common_fw.Net.Framing.RoundTrip.{joined, recv_all-send}
use common_fw.Net.Sending.{
  PipeRead, got, empty, timeout, closed, failed, Gathered, gathered, pipe_closed, closes, waits,
  read_loop, read_packets_from_pipe, Turn, continues, returned, closed_now, reads_on, send,
}

-- The bytes of the packets that the pipe yields.
abbrev pub payload : List PipeRead → List ℕ
payload [] = []
payload (got msg ∷ rs) = msg ++ payload rs
payload (empty ∷ rs) = payload rs
payload (timeout ∷ rs) = payload rs
payload (closed ∷ rs) = payload rs
payload (failed ∷ rs) = payload rs

-- A round of the loop, by whether the buffer has room.
abbrev has_room : List ℕ → Bool
has_room buf = ltb (length buf) (socket_buf_size / 2)

-- What was gathered, and what the pipe still yields, is what it would have yielded.
abbrev Kept : List PipeRead → List ℕ → List PipeRead → List ℕ → Type 0
Kept reads buf rest buf' = buf' ++ payload rest ≡ buf ++ payload reads

gathered_same :
    (a b : List ℕ) (r s : List PipeRead)
    → ◌≡◌ {A = Gathered} (gathered a r) (gathered b s)
    → (a ≡ b) × (r ≡ s)
gathered_same a b r s e = (cc, cc)

gathered-Kept :
    (reads rest : List PipeRead) (buf buf' : List ℕ)
    → ◌≡◌ {A = Gathered} (gathered buf reads) (gathered buf' rest)
    → Kept reads buf rest buf'
gathered-Kept reads rest buf buf' e =
    let (a, b) = gathered_same buf buf' reads rest e in rw (← a, ← b) refl

read_loop-Kept :
    (reads rest : List PipeRead) (buf buf' : List ℕ)
    → read_loop reads buf ≡ gathered buf' rest
    → Kept reads buf rest buf'
unfolding read_loop
read_loop-Kept [] rest buf buf' e = elim (Bool-cases (has_room buf)) [
  | inl f ↦ absurd (let e' = rw f at e in cc)
  | inr f ↦ gathered-Kept [] rest buf buf' (rw f at e)
]
read_loop-Kept (r ∷ rs) rest buf buf' e = elim (Bool-cases (has_room buf)) [
  | inr f ↦ gathered-Kept (r ∷ rs) rest buf buf' (rw f at e)
  | inl f ↦ from (λ b g. read_loop-Kept rs rest b buf' g) r (rw f at e)
]
  where
    from :
        ((b : List ℕ) → read_loop rs b ≡ gathered buf' rest → Kept rs b rest buf')
        → (q : PipeRead)
        → (elim q [
          | got msg ↦ read_loop rs (buf ++ msg)
          | empty ↦ if ltb 0 (length buf) then gathered buf rs else read_loop rs buf
          | timeout ↦ gathered buf rs
          | closed ↦ pipe_closed
          | failed ↦ closes
        ])
          ≡ gathered buf' rest
        → Kept (q ∷ rs) buf rest buf'
    from ih (got msg) g = ih (buf ++ msg) g ∙ append_assoc buf msg (payload rs)
    from ih empty g = elim (Bool-cases (ltb 0 (length buf))) [
      | inl h ↦ gathered-Kept rs rest buf buf' (rw h at g)
      | inr h ↦ ih buf (rw h at g)
    ]
    from ih timeout g = gathered-Kept rs rest buf buf' g
    from ih closed g = absurd (cc)
    from ih failed g = absurd (cc)

-- While send goes on, what the socket has taken and what the pipe still yields is what the pipe
-- yielded.
send-Kept :
    (ts : List Turn) (reads rest : List PipeRead) (out out' : List ℕ)
    → send ts reads out ≡ continues out' rest
    → Kept reads out rest out'
unfolding send
send-Kept [] reads rest out out' e =
    let same : out ≡ out' = cc in let left : reads ≡ rest = cc in rw (← same, ← left) refl
send-Kept (t ∷ ts) reads rest out out' e = elim (Bool-cases t.is_closed) [
  | inl c ↦ absurd (let e' = rw (c, send) at e in cc)
  | inr c ↦
      from (λ r o g. send-Kept ts r rest o out' g) (read_packets_from_pipe reads) refl
        (rw (c, send) at e)
]
  where
    from :
        ((r : List PipeRead) (o : List ℕ) → send ts r o ≡ continues out' rest → Kept r o rest out')
        → (q : Gathered) → read_packets_from_pipe reads ≡ q
        → (elim q [
          | gathered sendbuf left ↦
              if length sendbuf == 0
              then send ts left out
              else (if t.write_ok then send ts left (out ++ sendbuf) else closed_now out)
          | pipe_closed ↦ returned out
          | closes ↦ closed_now out
          | waits sendbuf ↦ reads_on out sendbuf
        ])
          ≡ continues out' rest
        → Kept reads out rest out'
    from ih (gathered buf left) f g =
        let kept : buf ++ payload left ≡ payload reads = read_loop-Kept reads left [] buf f in
        elim (Bool-cases (length buf == 0)) [
          | inl h ↦ ih left out (rw h at g) ∙ ap (λ x. out ++ x) (skip buf h kept)
          | inr h ↦ elim (Bool-cases t.write_ok) [
            | inl w ↦
                ih left (out ++ buf) (rw (h, w) at g)
                ∙ append_assoc out buf (payload left)
                ∙ ap (λ x. out ++ x) kept
            | inr w ↦ absurd (let g' = rw (h, w) at g in cc)
          ]
        ]
      where
        skip :
            (b : List ℕ)
            → (length b == 0) ≡ true
            → b ++ payload left ≡ payload reads
            → payload left ≡ payload reads
        skip [] h k = k
        skip (x ∷ b) h k = absurd (ground arith)
    from ih pipe_closed f g = absurd (cc)
    from ih closes f g = absurd (cc)
    from ih (waits buf) f g = absurd (cc)

-- Messages that SendMsg accepts, put into the pipe as packets: while send goes on and has taken all
-- of them from the pipe, in whatever portions, and the socket yields what it was given in whatever
-- pieces, the receiver delivers the messages in order, each once, and nothing else; reads and
-- writes of the pipes may time out, and the receiver's pipe stays open.
pub recv_all-send_all :
    (ms : List NetMsg) (ts : List Turn) (reads rest : List PipeRead) (out : List ℕ)
    (chunks : List (List ℕ)) (pipe : List PipeResult)
    → All IsSendable ms
    → IsOpen pipe
    → payload reads ≡ packets ms
    → send ts reads [] ≡ continues out rest
    → payload rest ≡ []
    → joined chunks ≡ out
    → (pipe' : List PipeResult) × (recv_all [] chunks [] pipe ≡ goes_on ms [] pipe')
recv_all-send_all ms ts reads rest out chunks pipe h o p e l j =
    let kept : out ++ payload rest ≡ payload reads = send-Kept ts reads rest [] out e in
    let whole : out ≡ packets ms = sym (append-nil out) ∙ ap (λ x. out ++ x) (sym l) ∙ kept ∙ p in
    recv_all-send ms chunks pipe h o (j ∙ whole)
