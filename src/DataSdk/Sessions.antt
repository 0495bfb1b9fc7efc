-- ===== src/DataSdk/Sessions.antt =====
-- component/datasdk/datasdk.go: StartDataOps, DoDataOps, recvJob and the timers of sessions.
pub mod Notices
use common_fw.Common.{
  ℕ, ◌≡◌, ◌≢◌, Bool, true, false, not, ◌&&◌, Option, none, some, List, [], ◌∷◌, ltb, ◌==◌,
  if◌then◌else◌, Map, put, remove, empty_map, exists,
}
use common_fw.DataSdk.Rules.{
  OpNumbers, Rules, SdkError, invalid_param, DataOp, CheckedOps, accepted, refused, panicked,
  check_ops,
}

-- The response's ResultID, whether it is there, and the number of its values.
pub record Response : Type 0 where
  pub result_id : Option ℕ
  pub values : ℕ

-- What OnFinished is called with, or what the waiting call is told: a response or a time-out.
pub data Notice : Type 0 where
  finished : Response → Notice
  timed_out : Notice

-- The goroutine of a session's timer: none, in its select, or with a value in `tq`.
pub data TimerState : Type 0 where
  no_timer waiting told : TimerState

-- A session: whether its call waits (DoDataOps).
pub record Session : Type 0 where
  pub is_sync : Bool

-- `used` has the ids that GenID has given, and `notices` what each session has been told.
pub record Sdk : Type 0 where
  pub smap : Map Session
  pub timers : ℕ → TimerState
  pub notices : ℕ → List Notice
  pub used : ℕ → Bool

abbrev pub new_sdk : Sdk
new_sdk = record {
  smap = empty_map;
  timers = λ sid. no_timer;
  notices = λ sid. [];
  used = λ sid. false;
}

abbrev pub set {ℓ} : {A : Type ℓ} → (ℕ → A) → ℕ → A → ℕ → A
set f k a j = if j == k then a else f j

-- The session is recorded, and its timer started.
unfoldable pub begin_session : ℕ → Session → Sdk → Sdk
begin_session sid s w = record {
  smap = put w.smap sid s;
  timers = set w.timers sid waiting;
  notices = w.notices;
  used = set w.used sid true;
}

-- `delete(sdk.smap, sid)` when the request cannot be encoded or sent.
unfoldable pub drop_session : ℕ → Sdk → Sdk
drop_session sid w = record {
  smap = remove w.smap sid;
  timers = w.timers;
  notices = w.notices;
  used = w.used;
}

abbrev pub is_valid : Response → Bool
is_valid r = exists r.result_id && ltb 0 r.values

-- A session is told nothing when its response does not decode or is not valid.
abbrev pub told_of : Option Response → List Notice → List Notice
told_of none ns = ns
told_of (some r) ns = if is_valid r then finished r ∷ ns else ns

abbrev pub receive_for : Option Session → ℕ → Option Response → Sdk → Sdk
receive_for none sid body w = w
receive_for (some s) sid body w = record {
  smap = remove w.smap sid;
  timers = set w.timers sid told;
  notices = set w.notices sid (told_of body (w.notices sid));
  used = w.used;
}

-- A round of recvJob; `body` is what proto.Unmarshal makes of the reply.
unfoldable pub receive : ℕ → Option Response → Sdk → Sdk
receive sid body w = receive_for (w.smap sid) sid body w

abbrev pub time_out_for : Option Session → ℕ → Sdk → Sdk
time_out_for none sid w = record {
  smap = w.smap;
  timers = set w.timers sid no_timer;
  notices = w.notices;
  used = w.used;
}
time_out_for (some s) sid w = record {
  smap = remove w.smap sid;
  timers = set w.timers sid no_timer;
  notices = set w.notices sid (timed_out ∷ w.notices sid);
  used = w.used;
}

-- The timer's goroutine after the timer has fired.
unfoldable pub time_out : ℕ → Sdk → Sdk
time_out sid w = time_out_for (w.smap sid) sid w

-- The timer's goroutine after a value in `tq`.
unfoldable pub end_timer : ℕ → Sdk → Sdk
end_timer sid w = record {
  smap = w.smap;
  timers = set w.timers sid no_timer;
  notices = w.notices;
  used = w.used;
}

-- GenID gives a new id each time; a timer that has been told may also have fired.
pub data Step : Sdk → Sdk → Type 0 where
  begins : (w : Sdk) (sid : ℕ) (s : Session) → w.used sid ≡ false → Step w (begin_session sid s w)
  send_fails : (w : Sdk) (sid : ℕ) → Step w (drop_session sid w)
  receives : (w : Sdk) (sid : ℕ) (body : Option Response) → Step w (receive sid body w)
  fires : (w : Sdk) (sid : ℕ) → w.timers sid ≢ no_timer → Step w (time_out sid w)
  is_told : (w : Sdk) (sid : ℕ) → w.timers sid ≡ told → Step w (end_timer sid w)

pub data Steps : Sdk → Sdk → Type 0 where
  done : (w : Sdk) → Steps w w
  then_step : (w : Sdk) {v u : Sdk} → Step w v → Steps v u → Steps w u

-- Whether the request's body and the request are encoded, and the request is sent.
pub record Sending : Type 0 where
  pub body_ok : Bool
  pub request_ok : Bool
  pub sent : Bool

pub data OpsError : Type 0 where
  sdk_error : SdkError → OpsError
  body_error request_error send_error : OpsError

-- What a call does: it panics, returns with an error or nil, or waits for its session.
pub data Called : Type 0 where
  crashes : Called
  returns : Option OpsError → Called
  waits : Called

pub record Call : Type 0 where
  pub called : Called
  pub sdk : Sdk

-- Behind CheckOps. A call that waits, and one that does not, differ in what they return when the
-- request cannot be encoded: StartDataOps returns the error of the body, which is nil.
abbrev pub request_failure : Bool → Called
request_failure true = returns (some request_error)
request_failure false = returns none

abbrev pub request_sent : Bool → Called
request_sent true = waits
request_sent false = returns none

module _ (is_sync : Bool) (env : Sending) (sid : ℕ) where
  abbrev pub send_request : Sdk → Call
  send_request w =
      if not env.request_ok
      then record { called = request_failure is_sync; sdk = drop_session sid w }
      else (if not env.sent
          then record { called = returns (some send_error); sdk = drop_session sid w }
          else record { called = request_sent is_sync; sdk = w })

  abbrev pub begin_request : Sdk → Call
  begin_request w =
      if env.body_ok
      then send_request (begin_session sid (record { is_sync = is_sync }) w)
      else record { called = returns (some body_error); sdk = w }

  abbrev pub after_check : CheckedOps → Sdk → Call
  after_check (accepted route) w = begin_request w
  after_check (refused e) w = record { called = returns (some (sdk_error e)); sdk = w }
  after_check panicked w = record { called = crashes; sdk = w }

  module _ (str_hash : List ℕ → ℕ) (ops : OpNumbers) (rules : Rules) where
    abbrev pub call_with : List DataOp → Sdk → Call
    call_with [] w = record { called = returns (some (sdk_error invalid_param)); sdk = w }
    call_with (o ∷ os) w = after_check (check_ops str_hash ops rules (o ∷ os)).result w

    -- StartDataOps, and DoDataOps when `is_sync`.
    unfoldable pub data_ops : Bool → List DataOp → Sdk → Call
    data_ops inited os w = if inited then call_with os w else record { called = crashes; sdk = w }
