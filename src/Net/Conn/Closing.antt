-- ===== src/Net/Conn/Closing.antt =====
-- The life of a connection whose events come one after the other.
use common_fw.Common.{
  ◌+◌, ◌≤◌, ◌||◌, ◌≡◌, refl, ◌≢◌, Bool, true, false, not, ◌&&◌, List, [], ◌∷◌, ◌++◌, if◌then◌else◌,
  Outcome, ok, ◌>>=◌, arith, ap, sym, ◌∙◌, subst, Bool-cases, inl, inr,
}
use common_fw.Net.Framing.{NetMsg, PipeResult}
use common_fw.Net.Conn.{
  Conn, CloseReason, none, new_conn, register_disconn_callback, close_pipes, close_now, reason_of,
  send_msg, refused, connection_about_to_close, connection_closed,
}

-- A call of closeNow, by recv, send or Close, of SendMsg, or of RegisterDisconnCallback.
pub data Event : Type 0 where
  closing : (normal_close is_eof socket_ok : Bool) → Event
  sending : NetMsg → PipeResult → Event
  registering : Event

pub step : Conn → Event → Outcome Conn
step c (closing normal_close is_eof socket_ok) = close_now c normal_close is_eof socket_ok
step c (sending msg res) = ok (send_msg c msg res).0
step c registering = ok (register_disconn_callback c)

pub run : Conn → List Event → Outcome Conn
run c [] = ok c
run c (e ∷ es) = step c e >>= λ c'. run c' es

-- Pipes are closed with the connection, a closed connection has a reason, and the callback has not
-- been called while the connection is open, and at most once at all.
pub record IsSound (c : Conn) : Type 0 where
  pub in_pipe : c.in_pipe_closed ≡ c.is_closed
  pub out_pipe : c.out_pipe_closed ≡ c.is_closed
  pub open_reason : c.is_closed ≡ false → c.close_reason ≡ none
  pub closed_reason : c.is_closed ≡ true → c.close_reason ≢ none
  pub open_callbacks : c.is_closed ≡ false → c.callbacks ≡ 0
  pub closed_callbacks : c.callbacks ≤ 1

new_conn-IsSound : (is_server is_tcp : Bool) → IsSound (new_conn is_server is_tcp)
unfolding new_conn
new_conn-IsSound is_server is_tcp = ground arith

-- A connection just closed.
abbrev closed_now : Conn → CloseReason → Conn
closed_now c reason = record c {
  is_closed = true;
  close_reason = reason;
  in_pipe_closed = true;
  out_pipe_closed = true;
  callbacks = if c.has_callback then c.callbacks + 1 else c.callbacks;
}

module _ (c : Conn) (v : IsSound c) where
  close_now-IsSound : (n f s : Bool) → (c' : Conn) × (close_now c n f s ≡ ok c') × IsSound c'
  unfolding close_now close_pipes
  close_now-IsSound n f s = elim (Bool-cases c.is_closed) [
    | inl e ↦ (c, ground arith, v)
    | inr e ↦ elim (Bool-cases (n && not c.about_to_close)) [
      | inl g ↦ (record c { about_to_close = true }, ground arith, ground arith)
      | inr g ↦ elim (Bool-cases s) [
        | inr bad ↦ (c, ground arith, v)
        | inl good ↦ (closed_now c (reason_of n f), ground arith, newly_closed e n f)
      ]
    ]
  ]
    where
      newly_closed : c.is_closed ≡ false → (n f : Bool) → IsSound (closed_now c (reason_of n f))
      newly_closed e true f = ground arith
      newly_closed e false true = ground arith
      newly_closed e false false = ground arith

  send_msg-IsSound : (msg : NetMsg) (res : PipeResult) → IsSound (send_msg c msg res).0
  unfolding send_msg
  send_msg-IsSound msg res = ground arith

  register-IsSound : IsSound (register_disconn_callback c)
  unfolding register_disconn_callback
  register-IsSound = ground arith

  pub step-IsSound : (e : Event) → (c' : Conn) × (step c e ≡ ok c') × IsSound c'
  unfolding step
  step-IsSound (closing n f s) = close_now-IsSound n f s
  step-IsSound (sending msg res) = ((send_msg c msg res).0, refl, send_msg-IsSound msg res)
  step-IsSound registering = (register_disconn_callback c, refl, register-IsSound)

run-from : (es : List Event) (c : Conn) → IsSound c → (c' : Conn) × (run c es ≡ ok c') × IsSound c'
unfolding run
run-from [] c v = (c, refl, v)
run-from (e ∷ es) c v =
    let (c1, q, v1) = step-IsSound c v e in let (c2, r, v2) = run-from es c1 v1 in (c2, rw q r, v2)

-- Whether RegisterDisconnCallback has been called.
abbrev pub registers : List Event → Bool
registers [] = false
registers (registering ∷ es) = true
registers (e ∷ es) = registers es

abbrev is_registering : Event → Bool
is_registering registering = true
is_registering e = false

registers_first :
    (e : Event) (es : List Event) → registers (e ∷ es) ≡ (is_registering e || registers es)
registers_first (closing n f s) es = refl
registers_first (sending msg res) es = refl
registers_first registering es = refl

step-has_callback :
    (c c' : Conn) (e : Event)
    → step c e ≡ ok c'
    → (c'.has_callback ≡ (c.has_callback || (c.is_tcp && is_registering e)))
      × (c'.is_tcp ≡ c.is_tcp)
unfolding step close_now close_pipes send_msg register_disconn_callback
step-has_callback c c' (closing n f s) q = ground arith
step-has_callback c c' (sending msg res) q = ground arith
step-has_callback c c' registering q = ground arith

step-closed :
    (c c' : Conn) (e : Event)
    → step c e ≡ ok c'
    → c.is_closed ≡ true
    → (c'.is_closed ≡ true) × (c'.callbacks ≡ c.callbacks)
unfolding step close_now close_pipes send_msg register_disconn_callback
step-closed c c' (closing n f s) q h = ground arith
step-closed c c' (sending msg res) q h = ground arith
step-closed c c' registering q h = ground arith

step-closes :
    (c c' : Conn) (e : Event)
    → step c e ≡ ok c'
    → IsSound c
    → c.is_closed ≡ false
    → c'.is_closed ≡ true
    → c'.callbacks ≡ (if c.has_callback then 1 else 0)
unfolding step close_now close_pipes send_msg register_disconn_callback
step-closes c c' (closing n f s) q v o h = ground arith
step-closes c c' (sending msg res) q v o h = ground arith
step-closes c c' registering q v o h = ground arith

run-has_callback :
    (es : List Event) (c c' : Conn)
    → IsSound c
    → run c es ≡ ok c'
    → c'.has_callback ≡ (c.has_callback || (c.is_tcp && registers es))
unfolding run
run-has_callback [] c c' v q = ground arith
run-has_callback (e ∷ es) c c' v q =
    let (c1, r, v1) = step-IsSound c v e in
    let rest : run c1 es ≡ ok c' = rw r at q in
    let ih = run-has_callback es c1 c' v1 rest in
    let one = step-has_callback c c1 e r in
    let first = registers_first e es in ground (arith, ih, one, first)

run-closed :
    (es : List Event) (c c' : Conn)
    → IsSound c
    → run c es ≡ ok c'
    → c.is_closed ≡ true
    → c'.callbacks ≡ c.callbacks
unfolding run
run-closed [] c c' v q h = ground arith
run-closed (e ∷ es) c c' v q h =
    let (c1, r, v1) = step-IsSound c v e in
    let one = step-closed c c1 e r h in run-closed es c1 c' v1 (rw r at q) one.0 ∙ one.1

run-after :
    (xs ys : List Event) (c c1 : Conn) → IsSound c → run c xs ≡ ok c1 → run c (xs ++ ys) ≡ run c1 ys
unfolding run
run-after [] ys c c1 v q = (let same : c ≡ c1 = cc in ap (λ x. run x ys) same)
run-after (x ∷ xs) ys c c1 v q =
    let (c2, r, v2) = step-IsSound c v x in rw r (run-after xs ys c2 c1 v2 (rw r at q))

called_once :
    (before after : List Event) (e : Event) (c c1 c2 c' : Conn)
    → IsSound c
    → c.has_callback ≡ false
    → run c before ≡ ok c1
    → step c1 e ≡ ok c2
    → c1.is_closed ≡ false
    → c2.is_closed ≡ true
    → run c (before ++ (e ∷ after)) ≡ ok c'
    → c'.callbacks ≡ (if c.is_tcp && registers before then 1 else 0)
unfolding run
called_once before after e c c1 c2 c' v none_yet q r o h whole =
    let (c3, q3, v1) = run-from before c v in
    let same : c3 ≡ c1 = cc in
    let v1' = subst IsSound same v1 in
    let (c4, r4, v2) = step-IsSound c1 v1' e in
    let same2 : c4 ≡ c2 = cc in
    let v2' = subst IsSound same2 v2 in
    let tail : run c1 (e ∷ after) ≡ ok c' = sym (run-after before (e ∷ after) c c1 v q) ∙ whole in
    let rest : run c2 after ≡ ok c' = rw r at tail in
    let stays = run-closed after c2 c' v2' rest h in
    let now = step-closes c1 c2 e r v1' o h in
    let has = run-has_callback before c c1 v q in ground (arith, stays, now, has)

-- Whatever calls of closeNow, SendMsg and RegisterDisconnCallback follow one another on a new
-- connection, no channel is closed twice; the pipes are closed exactly with the connection, which then
-- has a reason; the callback is not called while the connection is open, and at most once at all: once
-- if the connection is TCP and a RegisterDisconnCallback came before the call that closed it, and never
-- if none did.
pub run-IsSound :
    (is_server is_tcp : Bool) (es : List Event)
    → (c : Conn) × (run (new_conn is_server is_tcp) es ≡ ok c)
      × IsSound c
      × ((before after : List Event) (e : Event) (c1 c2 : Conn)
          → es ≡ before ++ (e ∷ after)
          → run (new_conn is_server is_tcp) before ≡ ok c1
          → step c1 e ≡ ok c2
          → c1.is_closed ≡ false
          → c2.is_closed ≡ true
          → c.callbacks ≡ (if is_tcp && registers before then 1 else 0))
unfolding new_conn
run-IsSound is_server is_tcp es =
    let v = new_conn-IsSound is_server is_tcp in
    let (c, q, s) = run-from es (new_conn is_server is_tcp) v in
    (
      c,
      q,
      s,
      λ before after e c1 c2 split r1 r2 o h.
          called_once before after e (new_conn is_server is_tcp) c1 c2 c v refl r1 r2 o h
            (ap (run (new_conn is_server is_tcp)) (sym split) ∙ q),
    )

-- After a call of Close that ends without a panic, SendMsg refuses, for the connection is about to
-- close or closed, and changes nothing; Close has kept the packets that wait in the pipe.
pub send_msg-close :
    (c : Conn) (is_eof socket_ok : Bool) (msg : NetMsg) (res : PipeResult) {c' : Conn}
    → close_now c true is_eof socket_ok ≡ ok c'
    → (send_msg c' msg res ≡ (
      c',
      refused (if c'.about_to_close then connection_about_to_close else connection_closed),
    ))
      × (c'.out_pipe ≡ c.out_pipe)
unfolding close_now close_pipes send_msg
send_msg-close c is_eof socket_ok msg res q = (ground arith, ground arith)
