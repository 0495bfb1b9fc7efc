-- ===== src/Obj/Managing.antt =====
-- What the manager's calls keep and return.
use common_fw.Common.{
  ℕ, ◌≤◌, ◌<◌, ◌≡◌, ◌≢◌, refl, ◌⊎◌, inl, inr, Bool, true, false, Option, none, some, List, [], ◌∷◌,
  ◌==◌, length, Outcome, ok, panic, ◌>>=◌, arith, Bool-cases,
}
use common_fw.Uuid.{gen_id}
use common_fw.Obj.{
  Object, lookup, delete, assign, BaseObMng, error, done, init, is_full, create, get, del, clear,
  Call, init_call, create_call, get_call, del_call, clear_call, call, calls,
}
use common_fw.Obj.Table.{
  IsSound, delete-All, delete-IsKeyed, delete-IsSound, length-delete, lookup-delete,
}

-- What holds after a call that does not panic.
abbrev pub OnOk : (BaseObMng → Type 0) → Outcome BaseObMng → Type 0
OnOk P (ok b) = P b
OnOk P _ = Unit

-- The ways through get.
get-cases :
    (id : ℕ) (b : BaseObMng)
    → ((lookup id b.ob_map ≡ none) × (get id b ≡ (error, b)))
      ⊎ (get id b ≡ (error, record b { ob_map = delete id b.ob_map }))
      ⊎ ((o : Object) × (lookup id b.ob_map ≡ some (some o)) × (get id b ≡ (done (some o), b)))
unfolding get
get-cases id b = from (lookup id b.ob_map) refl
  where
    from :
        (l : Option (Option Object))
        → lookup id b.ob_map ≡ l
        → ((lookup id b.ob_map ≡ none) × (get id b ≡ (error, b)))
          ⊎ (get id b ≡ (error, record b { ob_map = delete id b.ob_map }))
          ⊎ ((o : Object) × (lookup id b.ob_map ≡ some (some o)) × (get id b ≡ (done (some o), b)))
    from none e = inl (e, rw (e, get) refl)
    from (some none) e = inr (inl (rw (e, get) refl))
    from (some (some o)) e = inr (inr (o, e, rw (e, get) refl))

get-IsSound : (id : ℕ) (b : BaseObMng) → IsSound b → IsSound (get id b).1
get-IsSound id b s = elim (get-cases id b) [
  | inl (l, e) ↦ rw e s
  | inr (inl e) ↦ rw e (delete-IsSound id b s)
  | inr (inr (o, l, e)) ↦ rw e s
]

del-IsSound : (id : ℕ) (b : BaseObMng) → IsSound b → IsSound (del id b).1
unfolding del
del-IsSound id b s = elim (get-cases id b) [
  | inl (l, e) ↦ rw (e, del) (rw e s)
  | inr (inl e) ↦ rw (e, del) (rw e (delete-IsSound id b s))
  | inr (inr (o, l, e)) ↦ rw (e, del) (rw e (delete-IsSound id b s))
]

-- Create that succeeds: the manager is not full, and the object has the next id.
pub record Creates (o : Object) (b : BaseObMng) : Type 0 where
  pub gen : ℕ
  pub room : (1 ≤ b.cap) → length b.ob_map < b.cap
  pub returns :
      create o true b
      ≡ ok (
        done (some (record { id = gen_id gen })),
        record b {
          id_gen = some (gen_id gen);
          ob_map = assign (gen_id gen) (some (record { id = gen_id gen })) b.ob_map;
        },
      )

room_left : (b : BaseObMng) → is_full b ≡ false → 1 ≤ b.cap → length b.ob_map < b.cap
unfolding is_full
room_left b e c = ground arith

-- The ways through create: an error that changes the generator at most, a panic, or success.
create-cases :
    (o : Object) (init_ok : Bool) (b : BaseObMng)
    → ((create o init_ok b ≡ ok (error, b))
        ⊎ ((g : ℕ) × (create o init_ok b ≡ ok (error, record b { id_gen = some g }))))
      ⊎ ((create o init_ok b ≡ panic) × (o.id ≢ 0))
      ⊎ ((init_ok ≡ true) × Creates o b)
unfolding create
create-cases o init_ok b = elim (Bool-cases b.has_creator) [
  | inr e ↦ inl (inl (simp e))
  | inl e ↦ from b.id_gen refl e
]
  where
    from :
        (g : Option ℕ)
        → b.id_gen ≡ g
        → b.has_creator ≡ true
        → ((create o init_ok b ≡ ok (error, b))
            ⊎ ((g : ℕ) × (create o init_ok b ≡ ok (error, record b { id_gen = some g }))))
          ⊎ ((create o init_ok b ≡ panic) × (o.id ≢ 0))
          ⊎ ((init_ok ≡ true) × Creates o b)
    from none e h = inl (inl (simp (h, e)))
    from (some gen) e h = elim (Bool-cases (is_full b)) [
      | inl full ↦ inl (inl (simp (h, e, full)))
      | inr room ↦ elim (Bool-cases (o.id == 0)) [
        | inr used ↦ inr (inl (simp (h, e, room, used), ground arith))
        | inl fresh ↦ elim (Bool-cases init_ok) [
          | inr bad ↦ inl (inr (gen_id gen, simp (h, e, room, fresh, bad)))
          | inl good ↦ inr (
              inr (
                good,
                record {
                  gen = gen;
                  room = λ c. room_left b room c;
                  returns = simp (h, e, room, fresh);
                },
              ))
        ]
      ]
    ]

create-IsSound :
    (o : Object) (init_ok : Bool) (b : BaseObMng)
    → IsSound b
    → OnOk IsSound (call (create_call o init_ok) b)
unfolding call
create-IsSound o init_ok b s = elim (create-cases o init_ok b) [
  | inl (inl e) ↦ rw (e, call) s
  | inl (inr (g, e)) ↦
      let kept : IsSound (record b { id_gen = some g }) = record {
        entries = s.entries;
        keyed = s.keyed;
        capacity = s.capacity;
      } in
      rw (e, call) kept
  | inr (inl (e, used)) ↦ rw (e, call) tt
  | inr (inr (good, c)) ↦
      let id = gen_id c.gen in
      let added : IsSound
          (record b { id_gen = some id; ob_map = assign id (some (record { id = id })) b.ob_map }) =
        record {
          entries = (refl, delete-All id b.ob_map s.entries);
          keyed = (lookup-delete id b.ob_map, delete-IsKeyed id b.ob_map s.keyed);
          capacity = λ h. omega (arith, c.room h, length-delete id b.ob_map);
        } in
      rw (good, c.returns, call) added
]

init-IsSound :
    (cap : ℕ) (negative : Bool) (id_gen : Option ℕ) (has_creator : Bool) (b : BaseObMng)
    → IsSound b
    → IsSound (init cap negative id_gen has_creator b).1
unfolding init
init-IsSound cap negative id_gen has_creator b s = elim (Bool-cases b.inited) [
  | inl e ↦ simp (e, init) s
  | inr e ↦ from id_gen e
]
  where
    from : (g : Option ℕ) → b.inited ≡ false → IsSound (init cap negative g has_creator b).1
    from none e = simp (e, init) s
    from (some gen) e = elim (Bool-cases has_creator) [
      | inr h ↦ simp (e, init, h) s
      | inl h ↦ simp (e, init, h) (record { entries = tt; keyed = tt; capacity = λ l. omega arith })
    ]

call-IsSound : (c : Call) (b : BaseObMng) → IsSound b → OnOk IsSound (call c b)
unfolding call clear
call-IsSound (init_call cap negative id_gen has_creator) b s =
    init-IsSound cap negative id_gen has_creator b s
call-IsSound (create_call o init_ok) b s = create-IsSound o init_ok b s
call-IsSound (get_call id) b s = get-IsSound id b s
call-IsSound (del_call id) b s = del-IsSound id b s
call-IsSound clear_call b s = record { entries = tt; keyed = tt; capacity = λ l. omega arith }

-- Calls that follow one another on a sound manager and do not panic leave it sound: every entry
-- holds the object whose id is its key, no key has two entries, and there are no more objects than
-- the capacity, where that is positive.
pub calls-IsSound : (cs : List Call) (b : BaseObMng) → IsSound b → OnOk IsSound (calls cs b)
unfolding calls
calls-IsSound [] b s = s
calls-IsSound (c ∷ cs) b s = from (call c b) (call-IsSound c b s) (calls-IsSound cs)
  where
    from :
        (out : Outcome BaseObMng)
        → OnOk IsSound out
        → ((b' : BaseObMng) → IsSound b' → OnOk IsSound (calls cs b'))
        → OnOk IsSound (out >>= calls cs)
    from (ok b') h rest = rest b' h
    from panic h rest = tt
    from Outcome.stuck h rest = tt
