-- ===== src/Service/Messages.antt =====
-- framework/base/msgmap.go: the handlers of messages by id.
pub mod Dispatch
mod Examples
use common_fw.Common.{
  ℕ, ℤ, pos, negsuc, Bool, true, false, not, ◌||◌, Option, none, some, ◌==◌, if◌then◌else◌, Map,
  put, exists,
}

-- A handler, `none` for nil.
abbrev pub Handle : Type 0
Handle = Option ℕ

abbrev pub MsgMap : Type 0
MsgMap = Map Handle

abbrev pub uniform_msg_id : ℕ
uniform_msg_id = 0

-- A message: the session header's MsgID, where there are a header and a session header, and the
-- body, as numbers.
pub record Msg : Type 0 where
  pub header : Option (Option ℕ)
  pub body : ℕ

pub data MsgError : Type 0 where
  no_header no_session_header zero_msg_id uniform_failed no_handle bad_body : MsgError

-- What Process does with a message: it refuses it, hands it to a handler, whose result it returns,
-- or to the uniform handler, or it panics.
pub data Processed : Type 0 where
  refused : MsgError → Processed
  handled : ℕ → ℤ → Option ℕ → Processed
  uniform : Processed
  panics : Processed

-- The handlers, called on a body: NewMsg and Unmarshal, then SetContext and Process; and Process of
-- a uniform handler. An error is a number, `none` for nil.
pub record Handlers : Type 0 where
  pub decode : ℕ → ℕ → Option ℕ
  pub process : ℕ → ℕ → ℤ × Option ℕ
  pub process_raw : ℕ → ℕ → ℤ × Option ℕ

unfoldable pub reg : ℕ → Handle → MsgMap → Option MsgMap
reg msg_id handle m = if exists (m msg_id) then none else some (put m msg_id handle)

abbrev pub is_zero : ℤ → Bool
is_zero (pos n) = n == 0
is_zero (negsuc n) = false

-- `if res != 0 || e != nil`: e.Error() panics on a nil error.
abbrev pub uniform_result : ℤ → Option ℕ → Processed
uniform_result res (some e) = refused uniform_failed
uniform_result res none = if is_zero res then uniform else panics

module _ (hs : Handlers) where
  -- A nil uniform handler panics.
  abbrev pub by_uniform : Option Handle → ℕ → Processed
  by_uniform none body = refused no_handle
  by_uniform (some none) body = panics
  by_uniform (some (some h)) body =
      uniform_result (hs.process_raw h body).0 (hs.process_raw h body).1

  abbrev pub by_handle : ℕ → ℕ → Processed
  by_handle h body = elim (hs.decode h body) [
    | none ↦ refused bad_body
    | some msg ↦ handled h (hs.process h msg).0 (hs.process h msg).1
  ]

  abbrev pub dispatch : MsgMap → Option Handle → ℕ → Processed
  dispatch m (some (some h)) body = by_handle h body
  dispatch m (some none) body = by_uniform (m uniform_msg_id) body
  dispatch m none body = by_uniform (m uniform_msg_id) body

  unfoldable pub process : MsgMap → Msg → Processed
  process m ms = elim ms.header [
    | none ↦ refused no_header
    | some none ↦ refused no_session_header
    | some (some msg_id) ↦
        if msg_id == 0 then refused zero_msg_id else dispatch m (m msg_id) ms.body
  ]
