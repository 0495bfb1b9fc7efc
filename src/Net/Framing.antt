-- ===== src/Net/Framing.antt =====
-- component/net/net.go: the packet that Conn.SendMsg builds, and the loop of Conn.recv that takes
-- packets from the stream.
pub mod Fields
pub mod Loop
pub mod RoundTrip
pub mod Reject
use common_fw.Common.{
  ℕ, zero, suc, ◌+◌, ◌-◌, ◌*◌, ◌/◌, ◌%◌, ◌^◌, Bool, true, false, not, ◌&&◌, ◌||◌, List, [], ◌∷◌,
  ◌++◌, ltb, leb, ◌==◌, if◌then◌else◌, length, take, drop, put_uint32, put_uint16, uint32, uint16,
}

abbrev pub socket_buf_size : ℕ
socket_buf_size = 65536

abbrev pub head_size : ℕ
head_size = 8

abbrev pub magic_number : ℕ
magic_number = 0x786d

-- A byte is a number below 256.
pub record NetMsg : Type 0 where
  pub msg_type : ℕ
  pub content : List ℕ

-- SendMsg refuses an empty message and one that does not fit the receiver's buffer.
pub is_sendable : NetMsg → Bool
is_sendable msg =
    not (length msg.content == 0 || leb (socket_buf_size - head_size) (length msg.content))

-- The packet that SendMsg builds.
unfoldable pub packet : NetMsg → List ℕ
packet msg =
    put_uint32 (length msg.content + head_size)
    ++ (put_uint16 magic_number ++ (put_uint16 msg.msg_type ++ msg.content))

-- What a write to the receiving pipe ends in, for safechan's errors.
pub data PipeResult : Type 0 where
  written timeout closed failed : PipeResult

-- A write that times out is tried again: `continue` reads the same bytes of the buffer. What the
-- writes end in is given; with none left they succeed.
unfoldable pub await_write : List PipeResult → PipeResult × List PipeResult
await_write [] = (written, [])
await_write (timeout ∷ rs) = await_write rs
await_write (r ∷ rs) = (r, rs)

-- How one round of `recv` ends: it goes on with the bytes that are left in the buffer, it closes
-- the connection by accident, it returns since the pipe is closed, or it panics. Each has the
-- messages that were put into the pipe; `stuck` says that the model's fuel ran out.
pub data Round : Type 0 where
  goes_on : List NetMsg → List ℕ → List PipeResult → Round
  closes : List NetMsg → Round
  returns : List NetMsg → Round
  panics : List NetMsg → Round
  stuck : Round

-- What follows the write of a message, by its result; `msgs` are the messages before it.
abbrev pub after_write :
    PipeResult × List PipeResult → List NetMsg → (List PipeResult → Round) → Round
after_write (written, pipe) msgs go = go pipe
after_write (timeout, pipe) msgs go = stuck
after_write (closed, pipe) msgs go = returns msgs
after_write (failed, pipe) msgs go = closes msgs

-- The message of the packet at the front of the buffer.
abbrev pub message_at : List ℕ → NetMsg
message_at buf = record {
  msg_type = uint16 (drop 6 buf);
  content = drop head_size (take (uint32 buf) buf);
}

-- The inner loop, on `recvbuf[readOffset:offset]`. The slice `[readOffset+8 : readOffset+size]`
-- panics for a size below 8. A message in the buffer takes at least one byte, so the buffer's
-- length is enough fuel.
unfoldable pub packet_loop : ℕ → List ℕ → List NetMsg → List PipeResult → Round
packet_loop zero buf msgs pipe = stuck
packet_loop (suc fuel) buf msgs pipe =
    let size = uint32 buf in
    let rest = drop size buf in
    let msgs' = msgs ++ (message_at buf ∷ []) in
    let next = packet_loop fuel rest msgs' in
    let go = λ (pipe' : List PipeResult).
      if ltb head_size (length rest)
      then (if leb socket_buf_size (uint32 rest)
          then closes msgs'
          else (if leb (uint32 rest) (length rest) then next pipe' else goes_on msgs' rest pipe'))
      else goes_on msgs' rest pipe' in
    if leb socket_buf_size size || not (uint16 (drop 4 buf) == magic_number)
    then closes msgs
    else (if ltb size head_size then panics msgs else after_write (await_write pipe) msgs go)

-- One round of `recv` in which the socket yields the bytes `chunk`, none if the read timed out.
unfoldable pub recv_round : List ℕ → List ℕ → List PipeResult → Round
recv_round buf chunk pipe =
    let buf' = buf ++ chunk in
    let size = uint32 buf' in
    if ltb (length buf') head_size
    then goes_on [] buf' pipe
    else (if leb size head_size || leb socket_buf_size size
        then closes []
        else (if ltb (length buf') size
            then goes_on [] buf' pipe
            else packet_loop (length buf') buf' [] pipe))

-- The rounds on the chunks that the socket yields, with the messages delivered so far.
unfoldable pub recv_all : List ℕ → List (List ℕ) → List NetMsg → List PipeResult → Round
recv_all buf [] msgs pipe = goes_on msgs buf pipe
recv_all buf (chunk ∷ chunks) msgs pipe = elim (recv_round buf chunk pipe) [
  | goes_on new buf' pipe' ↦ recv_all buf' chunks (msgs ++ new) pipe'
  | closes new ↦ closes (msgs ++ new)
  | returns new ↦ returns (msgs ++ new)
  | panics new ↦ panics (msgs ++ new)
  | stuck ↦ stuck
]
