-- ===== src/Service/Timeouts/Deleting.antt =====
-- Sound timers, and what the removal of an id leaves of them.
use common_fw.Common.{
  ℕ, ◌<◌, ◌≡◌, refl, ◌⊎◌, inl, inr, Bool, true, false, some, ◌==◌, if◌then◌else◌, remove, exists,
  ok, arith, Bool-cases, Option-cases,
}
use common_fw.Service.Timeouts.{TimerInfo, Timers, delete_action}
use common_fw.Service.Timeouts.Running.{new_timers}

-- An id is in all three maps or in none, its channel is its own and open, and its information has
-- its function.
pub record IsSound (t : Timers) : Type 0 where
  pub has_channel : (id : ℕ) → exists (t.del_timeout_action id) ≡ exists (t.timeout_action_map id)
  pub has_info : (id : ℕ) → exists (t.timer_info id) ≡ exists (t.timeout_action_map id)
  pub is_open :
      (id ch : ℕ) → t.del_timeout_action id ≡ some ch → (ch < t.made) × (t.closed ch ≡ false)
  pub own :
      (i j ch : ℕ) → t.del_timeout_action i ≡ some ch → t.del_timeout_action j ≡ some ch → i ≡ j
  pub same_action :
      (id : ℕ) (info : TimerInfo)
      → t.timer_info id ≡ some info
      → t.timeout_action_map id ≡ some info.action

pub new_timers-IsSound : IsSound new_timers
new_timers-IsSound = record {
  has_channel = λ id. refl;
  has_info = λ id. refl;
  is_open = λ id ch e. absurd (ground arith);
  own = λ i j ch e f. absurd (ground arith);
  same_action = λ id info e. absurd (ground arith);
}

-- What a removal of an id leaves.
pub record Deleted (id : ℕ) (is_delete : Bool) (t t' : Timers) : Type 0 where
  pub actions : t'.timeout_action_map ≡ remove t.timeout_action_map id
  pub channels : (j : ℕ) → t'.del_timeout_action j ≡ remove t.del_timeout_action id j
  pub infos : t'.timer_info ≡ remove t.timer_info id
  pub paused :
      t'.pause_timer_event
      ≡ (if is_delete then remove t.pause_timer_event id else t.pause_timer_event)
  pub still_made : t'.made ≡ t.made
  pub closes :
      (ch : ℕ) → t.closed ch ≡ false → (t'.closed ch ≡ false) ⊎ (t.del_timeout_action id ≡ some ch)

-- The two ways through a removal.
abbrev pub gone : ℕ → Bool → Timers → Timers
gone id is_delete t = record t {
  timeout_action_map = remove t.timeout_action_map id;
  timer_info = remove t.timer_info id;
  pause_timer_event = if is_delete then remove t.pause_timer_event id else t.pause_timer_event;
}

abbrev closed_and_gone : ℕ → ℕ → Bool → Timers → Timers
closed_and_gone ch id is_delete t = record (gone id is_delete t) {
  del_timeout_action = remove t.del_timeout_action id;
  closed = λ c. if c == ch then true else t.closed c;
}

-- The removal does not panic.
pub delete_action-Deleted :
    (id : ℕ) (is_delete : Bool) (t : Timers)
    → IsSound t
    → (t' : Timers) × (delete_action id is_delete t ≡ ok t') × Deleted id is_delete t t'
unfolding delete_action
delete_action-Deleted id is_delete t s = elim (Option-cases (t.del_timeout_action id)) [
  | inl e ↦ (
    gone id is_delete t,
    simp e,
    record {
      actions = refl;
      channels = λ j. ground (arith, e);
      infos = refl;
      paused = refl;
      still_made = refl;
      closes = λ ch h. inl h;
    },
  )
  | inr (ch, e) ↦
      let still_open = (s.is_open id ch e).1 in
      (
        closed_and_gone ch id is_delete t,
        simp (e, still_open),
        record {
          actions = refl;
          channels = λ j. refl;
          infos = refl;
          paused = refl;
          still_made = refl;
          closes = λ c h. elim (Bool-cases (c == ch)) [
            | inl q ↦ inr (ground (arith, e))
            | inr q ↦ inl (rw q h)
          ];
        },
      )
]

pub Deleted-IsSound :
    (id : ℕ) (is_delete : Bool) (t t' : Timers) → IsSound t → Deleted id is_delete t t' → IsSound t'
Deleted-IsSound id is_delete t t' s d = record {
  has_channel = λ j. rw (d.actions, d.channels j) (ground (arith, s.has_channel j));
  has_info = λ j. rw (d.actions, d.infos) (ground (arith, s.has_info j));
  is_open = λ j ch e. left_open j ch (rw (d.channels j) at e);
  own = λ i j ch e f.
      let e' = rw (d.channels i) at e in
      let f' = rw (d.channels j) at f in ground (arith, s.own i j ch);
  same_action =
      λ j info e. let e' = rw d.infos at e in rw d.actions (ground (arith, s.same_action j info));
}
  where
    left_open :
        (j ch : ℕ)
        → remove t.del_timeout_action id j ≡ some ch
        → (ch < t'.made) × (t'.closed ch ≡ false)
    left_open j ch e = elim (Bool-cases (j == id)) [
      | inl q ↦ absurd (ground arith)
      | inr q ↦
          let before : t.del_timeout_action j ≡ some ch = ground arith in
          let was_open = s.is_open j ch before in
          (
            rw d.still_made was_open.0,
            elim (d.closes ch was_open.1) [
              | inl h ↦ h
              | inr h ↦ absurd (let same = s.own j id ch before h in ground arith)
            ],
          )
    ]
