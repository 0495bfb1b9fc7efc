-- ===== src/Net/Framing/Reject.antt =====
-- What recv does with bytes that SendMsg never sends.
use common_fw.Common.{
  uint32, uint16, ℕ, zero, suc, ◌+◌, ◌≤◌, ◌<◌, ◌≡◌, refl, ◌∙◌, ◌⊎◌, ◌≢◌, inl, inr, List, [], ◌∷◌,
  ◌++◌, length, drop, arith, length-append,
}
use common_fw.Net.Framing.{
  NetMsg, magic_number, packet, PipeResult, closes, panics, packet_loop, recv_round,
}
use common_fw.Net.Framing.Fields.{IsSendable, length-packet, packet-size}
use common_fw.Net.Framing.Loop.{IsOpen, await_write-IsOpen, loop_more}
use common_fw.Net.Framing.RoundTrip.{round_whole}

-- The first packet in the buffer closes the connection, with no message delivered, if its size is
-- out of range, or if it is there whole and has another magic number.
pub recv_round-rejects :
    (buf chunk : List ℕ) (pipe : List PipeResult)
    → let bytes = buf ++ chunk in
      8 ≤ length bytes
      → ((uint32 bytes ≤ 8)
          ⊎ (65536 ≤ uint32 bytes)
          ⊎ ((uint32 bytes ≤ length bytes) × (uint16 (drop 4 bytes) ≢ magic_number)))
      → recv_round buf chunk pipe ≡ closes []
unfolding recv_round
recv_round-rejects buf chunk pipe l (inl h) = ground arith
recv_round-rejects buf chunk pipe l (inr (inl h)) = ground arith
recv_round-rejects buf chunk pipe l (inr (inr (w, m))) = reject (length (buf ++ chunk)) refl
  where
    reject : (n : ℕ) → length (buf ++ chunk) ≡ n → recv_round buf chunk pipe ≡ closes []
    reject zero e = absurd (omega arith)
    reject (suc n) e = unfold packet_loop in ground arith

loop_panics :
    (fuel : ℕ) (buf : List ℕ) (msgs : List NetMsg) (pipe : List PipeResult)
    → uint32 buf < 8
    → uint16 (drop 4 buf) ≡ magic_number
    → packet_loop (suc fuel) buf msgs pipe ≡ panics msgs
unfolding packet_loop
loop_panics fuel buf msgs pipe s m = ground arith

-- The bug: behind a message that is in order, a packet whose size field is below 8 passes all the
-- tests and crashes the receiver.
pub recv_round-panics :
    (m : NetMsg) (rest : List ℕ) (pipe : List PipeResult)
    → IsSendable m
    → IsOpen pipe
    → 8 < length rest
    → uint32 rest < 8
    → uint16 (drop 4 rest) ≡ magic_number
    → recv_round [] (packet m ++ rest) pipe ≡ panics (m ∷ [])
recv_round-panics m rest pipe h o l s magic = go (length (packet m ++ rest)) refl
  where
    size : uint32 (packet m ++ rest) ≡ length m.content + 8
    size = packet-size m rest h

    total : length (packet m ++ rest) ≡ length m.content + 8 + length rest
    total = length-append (packet m) rest ∙ omega (arith, length-packet m)

    whole :
        recv_round [] (packet m ++ rest) pipe
        ≡ packet_loop (length (packet m ++ rest)) (packet m ++ rest) [] pipe
    whole =
        round_whole [] (packet m ++ rest) pipe (omega (arith, total))
          (let c = h.0 in omega (arith, size)) (let c = h.1 in omega (arith, size))
          (omega (arith, size, total))

    go :
        (n : ℕ)
        → length (packet m ++ rest) ≡ n
        → recv_round [] (packet m ++ rest) pipe ≡ panics (m ∷ [])
    go zero e = absurd (omega (arith, total))
    go (suc zero) e = absurd (omega (arith, total))
    go (suc (suc n)) e =
        let (pipe', w, o') = await_write-IsOpen pipe o in
        whole
        ∙ rw e (
            loop_more (suc n) m h rest [] pipe pipe' w l (omega arith) (omega arith)
            ∙ loop_panics n rest (m ∷ []) pipe' s magic)
