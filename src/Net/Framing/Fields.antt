-- ===== src/Net/Framing/Fields.antt =====
-- The fields of the packets that SendMsg builds, at the front of a buffer.
use common_fw.Common.{
  put_uint32, put_uint16, uint32, uint16, ℕ, ◌+◌, ◌^◌, ◌≤◌, ◌<◌, ◌≡◌, refl, ap, sym, ◌∙◌, List, [],
  ◌∷◌, ◌++◌, length, take, drop, arith, take_front, drop_front, take-append, drop-append,
  take-append-drop,
}
use common_fw.Net.Framing.{NetMsg, magic_number, packet, message_at}

-- A message that SendMsg accepts.
abbrev pub IsSendable : NetMsg → Type 0
IsSendable m = (1 ≤ length m.content) × (length m.content < 65528) × (m.msg_type < 65536)

unfoldable pub packets : List NetMsg → List ℕ
packets [] = []
packets (m ∷ ms) = packet m ++ packets ms

uint32-put : (v : ℕ) (rest : List ℕ) → v < 2 ^ 32 → uint32 (put_uint32 v ++ rest) ≡ v
uint32-put v rest h = omega arith

uint16-put : (v : ℕ) (rest : List ℕ) → v < 2 ^ 16 → uint16 (put_uint16 v ++ rest) ≡ v
uint16-put v rest h = omega arith

pub length-packet : (m : NetMsg) → length (packet m) ≡ length m.content + 8
unfolding packet
length-packet m = omega arith

-- Fields of a packet at the front of a buffer.
pub packet-size :
    (m : NetMsg) (rest : List ℕ) → IsSendable m → uint32 (packet m ++ rest) ≡ length m.content + 8
unfolding packet
packet-size m rest h =
    uint32-put (length m.content + 8)
      (put_uint16 magic_number ++ (put_uint16 m.msg_type ++ (m.content ++ rest))) (omega arith)

pub packet-magic : (m : NetMsg) (rest : List ℕ) → uint16 (drop 4 (packet m ++ rest)) ≡ magic_number
unfolding packet
packet-magic m rest = refl

packet-whole :
    (m : NetMsg) (rest : List ℕ)
    → IsSendable m
    → take (uint32 (packet m ++ rest)) (packet m ++ rest) ≡ packet m
packet-whole m rest h = rw (packet-size m rest h, ← length-packet m) (take-append (packet m) rest)

pub packet-message : (m : NetMsg) (rest : List ℕ) → IsSendable m → message_at (packet m ++ rest) ≡ m
unfolding packet
packet-message m rest h = λ i. record { msg_type = type_eq i; content = content_eq i }
  where
    type_eq : uint16 (drop 6 (packet m ++ rest)) ≡ m.msg_type
    type_eq = uint16-put m.msg_type (m.content ++ rest) h.2

    content_eq : drop 8 (take (uint32 (packet m ++ rest)) (packet m ++ rest)) ≡ m.content
    content_eq = ap (drop 8) (packet-whole m rest h)

pub packet-rest :
    (m : NetMsg) (rest : List ℕ)
    → IsSendable m
    → drop (uint32 (packet m ++ rest)) (packet m ++ rest) ≡ rest
packet-rest m rest h = rw (packet-size m rest h, ← length-packet m) (drop-append (packet m) rest)

uint32-take : (xs : List ℕ) → uint32 xs ≡ uint32 (take 4 xs)
uint32-take [] = refl
uint32-take (a ∷ []) = refl
uint32-take (a ∷ b ∷ []) = refl
uint32-take (a ∷ b ∷ c ∷ []) = refl
uint32-take (a ∷ b ∷ c ∷ d ∷ xs) = refl

-- The size can be read once four bytes of a packet have come.
pub front-size :
    (buf more rest : List ℕ) (m : NetMsg)
    → IsSendable m
    → buf ++ more ≡ packet m ++ rest
    → 4 ≤ length buf
    → uint32 buf ≡ length m.content + 8
front-size buf more rest m h e l =
    uint32-take buf
    ∙ ap uint32 (take_front 4 buf more (packet m ++ rest) e l)
    ∙ sym (uint32-take (packet m ++ rest))
    ∙ packet-size m rest h

-- A buffer as long as the packet has the whole packet at its front.
pub front-packet :
    (buf more rest : List ℕ) (m : NetMsg)
    → buf ++ more ≡ packet m ++ rest
    → length (packet m) ≤ length buf
    → (rest' : List ℕ) × (buf ≡ packet m ++ rest') × (rest' ++ more ≡ rest)
front-packet buf more rest m e l =
    let n = length (packet m) in
    let whole = take_front n buf more (packet m ++ rest) e l ∙ take-append (packet m) rest in
    (
      drop n buf,
      sym (take-append-drop n buf) ∙ ap (λ x. x ++ drop n buf) whole,
      drop_front n buf more (packet m ++ rest) e l ∙ drop-append (packet m) rest,
    )
