-- ===== src/Obj.antt =====
-- component/obj/obj.go: the manager of objects, each call under the manager's lock.
pub mod Table
pub mod Managing
mod Examples
use common_fw.Common.{
  ℕ, ◌+◌, Bool, true, false, not, ◌&&◌, Option, none, some, List, [], ◌∷◌, ltb, leb, ◌==◌,
  if◌then◌else◌, length, Outcome, ok, panic, ◌>>=◌,
}
use common_fw.Uuid.{gen_id}

-- An object with BaseObject in it: its id, 0 if none was set.
pub record Object : Type 0 where
  pub id : ℕ

-- The map from ids to objects; an entry can be nil.
abbrev pub ObMap : Type 0
ObMap = List (ℕ × Option Object)

abbrev pub lookup : ℕ → ObMap → Option (Option Object)
lookup id [] = none
lookup id ((k, o) ∷ m) = if k == id then some o else lookup id m

abbrev pub delete : ℕ → ObMap → ObMap
delete id [] = []
delete id ((k, o) ∷ m) = if k == id then delete id m else (k, o) ∷ delete id m

-- An assignment replaces the entry of the key.
abbrev pub assign : ℕ → Option Object → ObMap → ObMap
assign id o m = (id, o) ∷ delete id m

-- BaseObMng. `id_gen` is the state of the generator, `none` for a nil pointer; nobody else draws ids
-- from it.
pub record BaseObMng : Type 0 where
  pub cap : ℕ
  pub inited : Bool
  pub id_gen : Option ℕ
  pub ob_map : ObMap
  pub has_creator : Bool

abbrev pub new_mng : BaseObMng
new_mng = record { cap = 0; inited = false; id_gen = none; ob_map = []; has_creator = false }

-- What a call returns: an error, or no error with the object, where there is one.
pub data Result : Type 0 where
  error : Result
  done : Option Object → Result

-- Init. A negative capacity is one of 0.
unfoldable pub init : ℕ → Bool → Option ℕ → Bool → BaseObMng → Result × BaseObMng
init cap negative id_gen has_creator b = if b.inited then (error, b) else elim id_gen [
  | none ↦ (error, b)
  | some gen ↦ if not has_creator then (error, b) else (
    done none,
    record {
      cap = if negative then 0 else cap;
      inited = true;
      id_gen = some gen;
      ob_map = [];
      has_creator = true;
    },
  )
]

unfoldable pub is_full : BaseObMng → Bool
is_full b = ltb 0 b.cap && leb b.cap (length b.ob_map)

-- `o.setID`: a second call panics.
abbrev pub set_id : ℕ → Object → Outcome Object
set_id id o = if o.id == 0 then ok (record { id = id }) else panic

-- Create, where creator() returns `o` and its Init succeeds if `init_ok`.
unfoldable pub create : Object → Bool → BaseObMng → Outcome (Result × BaseObMng)
create o init_ok b = if not b.has_creator then ok (error, b) else elim b.id_gen [
  | none ↦ ok (error, b)
  | some gen ↦ if is_full b then ok (error, b) else elim (set_id (gen_id gen) o) [
    | ok o' ↦
        if init_ok
        then ok (
          done (some o'),
          record b { id_gen = some (gen_id gen); ob_map = assign o'.id (some o') b.ob_map },
        )
        else ok (error, record b { id_gen = some (gen_id gen) })
    | panic ↦ panic
    | Outcome.stuck ↦ Outcome.stuck
  ]
]

-- get, which removes a nil entry that it meets.
unfoldable pub get : ℕ → BaseObMng → Result × BaseObMng
get id b = elim (lookup id b.ob_map) [
  | none ↦ (error, b)
  | some none ↦ (error, record b { ob_map = delete id b.ob_map })
  | some (some o) ↦ (done (some o), b)
]

unfoldable pub del : ℕ → BaseObMng → Result × BaseObMng
del id b =
    let (found, b') = get id b in
    elim found [
      | error ↦ (error, b')
      | done none ↦ (error, b')
      | done (some o) ↦ (done none, record b' { ob_map = delete id b'.ob_map })
    ]

unfoldable pub clear : BaseObMng → BaseObMng
clear b = record b { ob_map = [] }

-- A call of the manager.
pub data Call : Type 0 where
  init_call : ℕ → Bool → Option ℕ → Bool → Call
  create_call : Object → Bool → Call
  get_call : ℕ → Call
  del_call : ℕ → Call
  clear_call : Call

-- The state after a call that does not panic.
unfoldable pub call : Call → BaseObMng → Outcome BaseObMng
call (init_call cap negative id_gen has_creator) b = ok (init cap negative id_gen has_creator b).1
call (create_call o init_ok) b = elim (create o init_ok b) [
  | ok (result, b') ↦ ok b'
  | panic ↦ panic
  | Outcome.stuck ↦ Outcome.stuck
]
call (get_call id) b = ok (get id b).1
call (del_call id) b = ok (del id b).1
call clear_call b = ok (clear b)

-- Calls that follow one another.
unfoldable pub calls : List Call → BaseObMng → Outcome BaseObMng
calls [] b = ok b
calls (c ∷ cs) b = call c b >>= calls cs
