-- ===== src/Net/Sending.antt =====
-- component/net/net.go: the loop of Conn.send and readPacketsFromPipe.
pub mod Order
use common_fw.Common.{
  ℕ, Bool, true, false, List, [], ◌∷◌, ◌++◌, ltb, ◌==◌, ◌/◌, if◌then◌else◌, length,
}
use common_fw.Net.Framing.{socket_buf_size}

-- What a read of outPipe yields: a packet, or safechan's errors, the last one for any other.
pub data PipeRead : Type 0 where
  got : List ℕ → PipeRead
  empty timeout closed failed : PipeRead

-- readPacketsFromPipe: it returns nil with the bytes of sendbuf, and the answers that are left to
-- later reads; it returns since the pipe is closed; it has called closeNow; or, with no answer left,
-- it waits in a read.
pub data Gathered : Type 0 where
  gathered : List ℕ → List PipeRead → Gathered
  pipe_closed closes : Gathered
  waits : List ℕ → Gathered

-- The loop, with the bytes in sendbuf; readSize is their number.
unfoldable pub read_loop : List PipeRead → List ℕ → Gathered
read_loop [] sendbuf =
    if ltb (length sendbuf) (socket_buf_size / 2) then waits sendbuf else gathered sendbuf []
read_loop (r ∷ rs) sendbuf =
    let more = read_loop rs in
    if ltb (length sendbuf) (socket_buf_size / 2)
    then (elim r [
      | got msg ↦ more (sendbuf ++ msg)
      | empty ↦ if ltb 0 (length sendbuf) then gathered sendbuf rs else more sendbuf
      | timeout ↦ gathered sendbuf rs
      | closed ↦ pipe_closed
      | failed ↦ closes
    ])
    else gathered sendbuf (r ∷ rs)

abbrev pub read_packets_from_pipe : List PipeRead → Gathered
read_packets_from_pipe reads = read_loop reads []

-- A round of send: whether the connection is closed, and whether the socket takes all the bytes.
-- Where the connection is about to close and the pipe is empty, the round calls closeNow(true, false)
-- before it reads; then the pipe is closed, which shows in its answers.
pub record Turn : Type 0 where
  pub is_closed : Bool
  pub write_ok : Bool

-- How far send has come, with the bytes that the socket has taken: it goes on, it has returned, it
-- has closed the connection by closeNow(false, false) and returned, or it waits in a read with bytes
-- that are not sent.
pub data Sending : Type 0 where
  continues : List ℕ → List PipeRead → Sending
  returned : List ℕ → Sending
  closed_now : List ℕ → Sending
  reads_on : List ℕ → List ℕ → Sending

unfoldable pub send : List Turn → List PipeRead → List ℕ → Sending
send [] reads out = continues out reads
send (t ∷ ts) reads out =
    let later = send ts in
    if t.is_closed then returned out else elim (read_packets_from_pipe reads) [
      | gathered sendbuf rest ↦
          if length sendbuf == 0
          then later rest out
          else (if t.write_ok then later rest (out ++ sendbuf) else closed_now out)
      | pipe_closed ↦ returned out
      | closes ↦ closed_now out
      | waits sendbuf ↦ reads_on out sendbuf
    ]
