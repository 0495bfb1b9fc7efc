-- ===== src/Net/Framing/RoundTrip.antt =====
-- What recv makes of the packets that SendMsg builds, in whatever pieces they arrive.
use common_fw.Common.{
  uint32, ℕ, ◌+◌, ◌≤◌, ◌<◌, ◌≡◌, refl, ap, sym, subst, ◌∙◌, inl, inr, List, [], ◌∷◌, ◌++◌, ltb,
  length, arith, All, Bool-cases, length-append,
}
use mathlib.Core.List.{append-nil, append_assoc}
use common_fw.Net.Framing.{
  NetMsg, packet, PipeResult, Round, goes_on, packet_loop, recv_round, recv_all,
}
use common_fw.Net.Framing.Fields.{IsSendable, packets, length-packet, front-size}
use common_fw.Net.Framing.Loop.{IsOpen, IsIncomplete, Delivers, nil-of-append, loop-Delivers}

keep-Delivers :
    (ms : List NetMsg) (buf more : List ℕ) (pipe : List PipeResult) (round : Round)
    → IsOpen pipe
    → round ≡ goes_on [] buf pipe
    → buf ++ more ≡ packets ms
    → IsIncomplete buf ms
    → Delivers more ms [] round
keep-Delivers ms buf more pipe round o e r c = record {
  new = [];
  later = ms;
  rest = buf;
  pipe = pipe;
  still_open = o;
  ends = e;
  split = refl;
  remains = r;
  incomplete = c;
}

-- The ways through a round.
module _ (buf chunk : List ℕ) (pipe : List PipeResult) where
  round_short :
      length (buf ++ chunk) < 8 → recv_round buf chunk pipe ≡ goes_on [] (buf ++ chunk) pipe
  unfolding recv_round
  round_short h = ground arith

  module _ (long : 8 ≤ length (buf ++ chunk)) (low : 8 < uint32 (buf ++ chunk))
      (high : uint32 (buf ++ chunk) < 65536) where
    round_part :
        length (buf ++ chunk) < uint32 (buf ++ chunk)
        → recv_round buf chunk pipe ≡ goes_on [] (buf ++ chunk) pipe
    unfolding recv_round
    round_part h = ground arith

    pub round_whole :
        uint32 (buf ++ chunk) ≤ length (buf ++ chunk)
        → recv_round buf chunk pipe ≡ packet_loop (length (buf ++ chunk)) (buf ++ chunk) [] pipe
    unfolding recv_round
    round_whole h = ground arith

pub round-Delivers :
    (ms : List NetMsg) (buf chunk more : List ℕ) (pipe : List PipeResult)
    → All IsSendable ms
    → IsOpen pipe
    → (buf ++ chunk) ++ more ≡ packets ms
    → Delivers more ms [] (recv_round buf chunk pipe)
unfolding packets
round-Delivers [] buf chunk more pipe h o e =
    let empty = nil-of-append (buf ++ chunk) more e in
    keep-Delivers [] (buf ++ chunk) more pipe _ o
      (round_short buf chunk pipe (rw empty (omega arith))) e empty
round-Delivers (m ∷ ms) buf chunk more pipe h o e =
    elim (Bool-cases (ltb (length (buf ++ chunk)) 8)) [
      | inl short ↦
          keep-Delivers (m ∷ ms) (buf ++ chunk) more pipe _ o
            (round_short buf chunk pipe (ground arith)) e (ground (arith, len))
      | inr long ↦
          let l : 8 ≤ length (buf ++ chunk) = ground arith in
          let size = front-size (buf ++ chunk) more (packets ms) m h.0 e (omega arith) in
          let s = h.0 in
          elim (Bool-cases (ltb (length (buf ++ chunk)) (length (packet m)))) [
            | inl part ↦
                keep-Delivers (m ∷ ms) (buf ++ chunk) more pipe _ o
                  (round_part buf chunk pipe l (omega (arith, size)) (omega (arith, size))
                    (ground (arith, size, len)))
                  e (ground arith)
            | inr whole ↦
                rw
                  (round_whole buf chunk pipe l (omega (arith, size)) (omega (arith, size))
                    (ground (arith, size, len)))
                  (loop-Delivers m ms _ (buf ++ chunk) more [] pipe h o e (ground arith)
                    (omega arith))
          ]
    ]
  where
    len : length (packet m) ≡ length m.content + 8
    len = length-packet m

unfoldable pub joined : List (List ℕ) → List ℕ
joined [] = []
joined (c ∷ cs) = c ++ joined cs

incomplete_end :
    (ms : List NetMsg) (buf : List ℕ)
    → buf ≡ packets ms
    → IsIncomplete buf ms
    → (ms ≡ []) × (buf ≡ [])
unfolding packets
incomplete_end [] buf e c = (refl, e)
incomplete_end (m ∷ ms) buf e c =
    absurd (omega (arith, ap length e, length-append (packet m) (packets ms)))

All-later {ℓ} :
    {A : Type ℓ} (P : A → Type 0) (xs ys zs : List A) → zs ≡ xs ++ ys → All P zs → All P ys
All-later P [] ys zs e h = subst (All P) e h
All-later P (x ∷ xs) ys [] e h = cc
All-later P (x ∷ xs) ys (z ∷ zs) e h = All-later P xs ys zs (cc) h.1

recv_all-packets :
    (chunks : List (List ℕ)) (ms msgs : List NetMsg) (buf : List ℕ) (pipe : List PipeResult)
    → All IsSendable ms
    → IsOpen pipe
    → IsIncomplete buf ms
    → buf ++ joined chunks ≡ packets ms
    → (pipe' : List PipeResult) × (recv_all buf chunks msgs pipe ≡ goes_on (msgs ++ ms) [] pipe')
unfolding recv_all joined
recv_all-packets [] ms msgs buf pipe h o c e =
    let (no_ms, no_buf) = incomplete_end ms buf (sym (append-nil buf) ∙ e) c in
    (pipe, rw (no_ms, no_buf, append-nil))
recv_all-packets (chunk ∷ chunks) ms msgs buf pipe h o c e =
    let d =
      round-Delivers ms buf chunk (joined chunks) pipe h o
        (append_assoc buf chunk (joined chunks) ∙ e) in
    let (pipe', r) =
      recv_all-packets chunks d.later (msgs ++ d.new) d.rest d.pipe
        (All-later IsSendable d.new d.later ms d.split h) d.still_open d.incomplete d.remains in
    (
      pipe',
      rw (d.ends, recv_all)
          (r
            ∙ ap (λ x. goes_on x [] pipe')
                (append_assoc msgs d.new d.later ∙ ap (λ x. msgs ++ x) (sym d.split))),
    )

-- Messages that SendMsg accepts, sent one after the other and received in whatever pieces, with
-- reads and writes that time out, are delivered in order, each once, and nothing else is; the
-- connection stays open and no byte is left over. The condition is that the pipe stays open.
pub recv_all-send :
    (ms : List NetMsg) (chunks : List (List ℕ)) (pipe : List PipeResult)
    → All IsSendable ms
    → IsOpen pipe
    → joined chunks ≡ packets ms
    → (pipe' : List PipeResult) × (recv_all [] chunks [] pipe ≡ goes_on ms [] pipe')
unfolding packets
recv_all-send [] chunks pipe h o e = recv_all-packets chunks [] [] [] pipe h o refl e
recv_all-send (m ∷ ms) chunks pipe h o e =
    recv_all-packets chunks (m ∷ ms) [] [] pipe h o (omega (arith, length-packet m)) e
