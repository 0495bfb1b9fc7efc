-- ===== src/Net/Conn.antt =====
-- component/net/net.go: SendMsg's tests, closeNow and RegisterDisconnCallback, the life of a connection.
pub mod Closing
use common_fw.Common.{
  ℕ, zero, suc, ◌+◌, Bool, true, false, not, ◌&&◌, ◌||◌, List, [], ◌∷◌, ◌++◌, if◌then◌else◌,
  Outcome, ok, panic, ◌>>=◌,
}
use common_fw.Net.Framing.{
  NetMsg, packet, is_sendable, PipeResult, written, timeout, closed, failed,
}

pub data CloseReason : Type 0 where
  none by_self by_other by_accident : CloseReason

-- The fields of Commu and Conn that these functions read or change. The pipes' states stand for
-- the channels, `callbacks` counts the calls of disconnCallbackFunc.
pub record Conn : Type 0 where
  pub is_server : Bool
  pub is_tcp : Bool
  pub has_callback : Bool
  pub is_closed : Bool
  pub about_to_close : Bool
  pub close_reason : CloseReason
  pub in_pipe_closed : Bool
  pub out_pipe_closed : Bool
  pub out_pipe : List (List ℕ)
  pub callbacks : ℕ

-- A fresh connection, as newConn makes it: without a callback.
unfoldable pub new_conn : Bool → Bool → Conn
new_conn is_server is_tcp = record {
  is_server = is_server;
  is_tcp = is_tcp;
  has_callback = false;
  is_closed = false;
  about_to_close = false;
  close_reason = none;
  in_pipe_closed = false;
  out_pipe_closed = false;
  out_pipe = [];
  callbacks = 0;
}

-- RegisterDisconnCallback, with a callback that is not nil.
unfoldable pub register_disconn_callback : Conn → Conn
register_disconn_callback c = if c.is_tcp then record c { has_callback = true } else c

-- close(c.inPipe); close(c.outPipe): closing a closed channel panics.
unfoldable pub close_pipes : Conn → Outcome Conn
close_pipes c =
    if c.in_pipe_closed || c.out_pipe_closed
    then panic
    else ok (record c { in_pipe_closed = true; out_pipe_closed = true })

abbrev pub reason_of : Bool → Bool → CloseReason
reason_of true is_eof = by_self
reason_of false true = by_other
reason_of false false = by_accident

-- closeNow; `socket_ok` says whether c.conn.Close() returns no error.
unfoldable pub close_now : Conn → Bool → Bool → Bool → Outcome Conn
close_now c normal_close is_eof socket_ok =
    if c.is_closed
    then ok c
    else (if normal_close && not c.about_to_close
        then ok (record c { about_to_close = true })
        else (if socket_ok
            then (close_pipes
                  (record c { is_closed = true; close_reason = reason_of normal_close is_eof })
                >>= λ c'. ok (record c' {
                  callbacks = if c'.has_callback then c'.callbacks + 1 else c'.callbacks;
                }))
            else ok c))

pub data SendError : Type 0 where
  connection_about_to_close connection_closed udp_server invalid_format pipe_closed pipe_timeout
        pipe_failed :
      SendError

pub data Sent : Type 0 where
  sent : Sent
  refused : SendError → Sent

-- The write of a packet to outPipe, whose result is given.
abbrev pub write_out : Conn → List ℕ → PipeResult → Conn × Sent
write_out c bytes written = (record c { out_pipe = c.out_pipe ++ (bytes ∷ []) }, sent)
write_out c bytes closed = (c, refused pipe_closed)
write_out c bytes timeout = (c, refused pipe_timeout)
write_out c bytes failed = (c, refused pipe_failed)

unfoldable pub send_msg : Conn → NetMsg → PipeResult → Conn × Sent
send_msg c msg res =
    if c.about_to_close
    then (c, refused connection_about_to_close)
    else (if c.is_closed
        then (c, refused connection_closed)
        else (if not c.is_tcp && c.is_server
            then (c, refused udp_server)
            else (if is_sendable msg
                then write_out c (packet msg) res
                else (c, refused invalid_format))))
