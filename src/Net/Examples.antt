-- ===== src/Net/Examples.antt =====
-- Concrete packets and connections, and the theorems at them.
use common_fw.Common.{
  ℕ, ◌≡◌, refl, ◌&&◌, if◌then◌else◌, inr, true, false, List, [], ◌∷◌, ◌++◌, ok, arith,
}
use common_fw.Net.Framing.{
  NetMsg, packet, PipeResult, written, timeout, goes_on, panics, recv_round, recv_all, packet_loop,
  await_write,
}
use common_fw.Net.Framing.Fields.{packets}
use common_fw.Net.Framing.RoundTrip.{joined, recv_all-send}
use common_fw.Net.Framing.Reject.{recv_round-panics}
use common_fw.Net.Sending.{PipeRead, got, empty, Turn, continues, send, read_loop}
use common_fw.Net.Sending.Order.{recv_all-send_all}
use common_fw.Net.Conn.{Conn, new_conn}
use common_fw.Net.Conn.Closing.{
  Event, closing, sending, registering, registers, step, run, IsSound, run-IsSound,
}

abbrev hello : NetMsg
hello = record { msg_type = 7; content = 104 ∷ 105 ∷ [] }

-- The packet of `hello` in two pieces.
abbrev pieces : List (List ℕ)
pieces = (0 ∷ 0 ∷ 0 ∷ 10 ∷ 120 ∷ []) ∷ [] ∷ (109 ∷ 0 ∷ 7 ∷ 104 ∷ 105 ∷ []) ∷ []

recv_all-send_example :
    (pipe' : List PipeResult) × (recv_all [] pieces [] (timeout ∷ [])
      ≡ goes_on (hello ∷ []) [] pipe')
unfolding joined packets packet
recv_all-send_example =
    recv_all-send (hello ∷ []) pieces (timeout ∷ []) (omega arith) (inr refl, tt) refl

-- The packet of `hello`, for which `send` waits a second.
abbrev reads : List PipeRead
reads = empty ∷ got (0 ∷ 0 ∷ 0 ∷ 10 ∷ 120 ∷ 109 ∷ 0 ∷ 7 ∷ 104 ∷ 105 ∷ []) ∷ empty ∷ []

abbrev turns : List Turn
turns = record { is_closed = false; write_ok = true } ∷ []

send-turns :
    send turns reads [] ≡ continues (0 ∷ 0 ∷ 0 ∷ 10 ∷ 120 ∷ 109 ∷ 0 ∷ 7 ∷ 104 ∷ 105 ∷ []) []
unfolding send read_loop
send-turns = refl

recv_all-send_all_example :
    (pipe' : List PipeResult) × (recv_all [] pieces [] (timeout ∷ [])
      ≡ goes_on (hello ∷ []) [] pipe')
unfolding joined packets packet
recv_all-send_all_example =
    recv_all-send_all (hello ∷ []) turns reads []
      (0 ∷ 0 ∷ 0 ∷ 10 ∷ 120 ∷ 109 ∷ 0 ∷ 7 ∷ 104 ∷ 105 ∷ []) pieces (timeout ∷ []) (omega arith)
      (inr refl, tt) refl send-turns refl refl

recv_all_run : recv_all [] pieces [] [] ≡ goes_on (hello ∷ []) [] []
unfolding recv_all recv_round packet_loop await_write
recv_all_run = refl

abbrev crash : List ℕ
crash = 0 ∷ 0 ∷ 0 ∷ 1 ∷ 120 ∷ 109 ∷ 0 ∷ 7 ∷ 0 ∷ []

recv_round-panics_example : recv_round [] (packet hello ++ crash) [] ≡ panics (hello ∷ [])
recv_round-panics_example =
    recv_round-panics hello crash [] (omega arith) tt (omega arith) (omega arith) refl

abbrev life : List Event
life =
    sending hello written
    ∷ registering
    ∷ closing true false true
    ∷ closing false true true
    ∷ closing true false true
    ∷ []

run-IsSound_example :
    (c : Conn) × (run (new_conn true true) life ≡ ok c)
    × IsSound c
    × ((before after : List Event) (e : Event) (c1 c2 : Conn)
        → life ≡ before ++ (e ∷ after)
        → run (new_conn true true) before ≡ ok c1
        → step c1 e ≡ ok c2
        → c1.is_closed ≡ false
        → c2.is_closed ≡ true
        → c.callbacks ≡ (if true && registers before then 1 else 0))
run-IsSound_example = run-IsSound true true life
