-- ===== src/DataSdk/Sessions/Notices.antt =====
-- component/datasdk/datasdk.go: what a session is told.
use common_fw.Common.{
  ℕ, ◌≤◌, ◌≡◌, refl, Bool, true, false, Option, none, some, List, [], ◌∷◌, ◌==◌, length, Bool-cases,
  ==_iff, inl, inr, ◌∙◌, ap, subst, arith,
}
use common_fw.DataSdk.Sessions.{
  Response, Notice, Session, Sdk, Step, Steps, TimerState, waiting, told, no_timer, new_sdk,
  begin_session, drop_session, receive, receive_for, time_out, time_out_for, end_timer, told_of,
  is_valid, timed_out, finished,
}

-- The state of one id. A session that waits for its reply has its timer and has been told nothing;
-- none has been told more than one thing, and an id that is not used yet nothing.
abbrev pub IsFine : Option Session → TimerState → List Notice → Bool → Type 0
IsFine (some s) t ns used = (t ≡ waiting) × (ns ≡ []) × (used ≡ true)
IsFine none t ns used = (used ≡ false → ns ≡ []) × (length ns ≤ 1)

unfoldable pub IsSound : Sdk → Type 0
IsSound w = (sid : ℕ) → IsFine (w.smap sid) (w.timers sid) (w.notices sid) (w.used sid)

begun-IsFine :
    (o : Option Session) (s : Session) (t : TimerState) (ns : List Notice) (used : Bool)
    → used ≡ false
    → IsFine o t ns used
    → IsFine (some s) waiting ns true
begun-IsFine none s t ns used e h = (refl, h.0 e, refl)
begun-IsFine (some r) s t ns used e h = (let u = h.2 in absurd (cc))

dropped-IsFine :
    (o : Option Session) (t t' : TimerState) (ns : List Notice) (used : Bool)
    → IsFine o t ns used
    → IsFine none t' ns used
dropped-IsFine none t t' ns used h = h
dropped-IsFine (some r) t t' ns used h = let e = h.1 in (λ u. e, rw e (omega arith))

notified-IsFine :
    (s : Session) (t t' : TimerState) (n : Notice) (ns : List Notice) (used : Bool)
    → IsFine (some s) t ns used
    → IsFine none t' (n ∷ ns) used
notified-IsFine s t t' n ns used h =
    let e = h.1 in let u = h.2 in (λ f. absurd (cc), rw e (omega arith))

told_of-IsFine :
    (s : Session) (body : Option Response) (t : TimerState) (ns : List Notice) (used : Bool)
    → IsFine (some s) t ns used
    → IsFine none told (told_of body ns) used
told_of-IsFine s none t ns used h = dropped-IsFine (some s) t told ns used h
told_of-IsFine s (some r) t ns used h = elim (Bool-cases (is_valid r)) [
  | inl e ↦ rw e (notified-IsFine s t told (finished r) ns used h)
  | inr e ↦ rw e (dropped-IsFine (some s) t told ns used h)
]

-- What is known of an id whose session there is.
at-IsFine :
    (w : Sdk) (sid : ℕ) (s : Session)
    → w.smap sid ≡ some s
    → IsSound w
    → IsFine (some s) (w.timers sid) (w.notices sid) (w.used sid)
unfolding IsSound
at-IsFine w sid s e h = subst (λ o. IsFine o (w.timers sid) (w.notices sid) (w.used sid)) e (h sid)

receive_for-IsSound :
    (o : Option Session) (w : Sdk) (sid : ℕ) (body : Option Response)
    → w.smap sid ≡ o
    → IsSound w
    → IsSound (receive_for o sid body w)
unfolding IsSound
receive_for-IsSound none w sid body e h k = h k
receive_for-IsSound (some s) w sid body e h k = elim (Bool-cases (k == sid)) [
  | inl f ↦
      let same = (==_iff k sid).0 f in
      rw (f, same)
        (told_of-IsFine s body (w.timers sid) (w.notices sid) (w.used sid) (at-IsFine w sid s e h))
  | inr f ↦ rw f (h k)
]

time_out_for-IsSound :
    (o : Option Session) (w : Sdk) (sid : ℕ)
    → w.smap sid ≡ o
    → IsSound w
    → IsSound (time_out_for o sid w)
unfolding IsSound
time_out_for-IsSound none w sid e h k = elim (Bool-cases (k == sid)) [
  | inl f ↦
      let same = (==_iff k sid).0 f in
      let gone : w.smap k ≡ none = ap w.smap same ∙ e in
      rw (f, gone) (dropped-IsFine (w.smap k) (w.timers k) no_timer (w.notices k) (w.used k) (h k))
  | inr f ↦ rw f (h k)
]
time_out_for-IsSound (some s) w sid e h k = elim (Bool-cases (k == sid)) [
  | inl f ↦
      let same = (==_iff k sid).0 f in
      rw (f, same)
        (notified-IsFine s (w.timers sid) no_timer timed_out (w.notices sid) (w.used sid)
          (at-IsFine w sid s e h))
  | inr f ↦ rw f (h k)
]

-- A timer that has been told has no session any more.
told-IsFine :
    (o : Option Session) (t : TimerState) (ns : List Notice) (used : Bool)
    → t ≡ told
    → IsFine o t ns used
    → IsFine o no_timer ns used
told-IsFine none t ns used e h = h
told-IsFine (some s) t ns used e h = (let r = h.0 in absurd (cc))

Step-IsSound : (w v : Sdk) → Step w v → IsSound w → IsSound v
unfolding IsSound begin_session drop_session receive time_out end_timer
Step-IsSound w v (Step.begins _ sid s fresh) h k = elim (Bool-cases (k == sid)) [
  | inl f ↦
      let same = (==_iff k sid).0 f in
      rw f (
        begun-IsFine (w.smap k) s (w.timers k) (w.notices k) (w.used k) (ap w.used same ∙ fresh)
          (h k))
  | inr f ↦ rw f (h k)
]
Step-IsSound w v (Step.send_fails _ sid) h k = elim (Bool-cases (k == sid)) [
  | inl f ↦
      rw f (dropped-IsFine (w.smap k) (w.timers k) (w.timers k) (w.notices k) (w.used k) (h k))
  | inr f ↦ rw f (h k)
]
Step-IsSound w v (Step.receives _ sid body) h k =
    receive_for-IsSound (w.smap sid) w sid body refl h k
Step-IsSound w v (Step.fires _ sid runs) h k = time_out_for-IsSound (w.smap sid) w sid refl h k
Step-IsSound w v (Step.is_told _ sid t) h k = elim (Bool-cases (k == sid)) [
  | inl f ↦
      let same = (==_iff k sid).0 f in
      rw f
        (told-IsFine (w.smap k) (w.timers k) (w.notices k) (w.used k) (ap w.timers same ∙ t) (h k))
  | inr f ↦ rw f (h k)
]

run-IsSound : (w v : Sdk) → Steps w v → IsSound w → IsSound v
run-IsSound w v (Steps.done _) h = h
run-IsSound w v (Steps.then_step _ s r) h = run-IsSound _ v r (Step-IsSound w _ s h)

new_sdk-IsSound : IsSound new_sdk
unfolding IsSound
new_sdk-IsSound sid = (λ e. refl, omega arith)

bounded :
    (o : Option Session) (t : TimerState) (ns : List Notice) (used : Bool)
    → IsFine o t ns used
    → length ns ≤ 1
bounded none t ns used h = h.1
bounded (some s) t ns used h = (let e = h.1 in rw e (omega arith))

told_time_out :
    (w : Sdk) (sid : ℕ) (s : Session)
    → w.smap sid ≡ some s
    → w.notices sid ≡ []
    → (time_out sid w).notices sid ≡ timed_out ∷ []
unfolding time_out
told_time_out w sid s e n = let here = (==_iff sid sid).1 refl in rw (e, time_out, here, n) refl

-- From a new SDK, in whatever order sessions begin, requests fail, replies come and timers fire: a
-- session is told at most one thing, and one that is still recorded has been told nothing, while
-- its timer runs and, when it fires, tells it the time-out.
pub Steps-once :
    (w : Sdk)
    → Steps new_sdk w
    → (sid : ℕ)
    → (length (w.notices sid) ≤ 1)
      × ((s : Session)
          → w.smap sid ≡ some s
          → (w.notices sid ≡ [])
            × Step w (time_out sid w)
            × ((time_out sid w).notices sid ≡ timed_out ∷ []))
unfolding IsSound time_out
Steps-once w run sid =
    let sound = run-IsSound new_sdk w run new_sdk-IsSound in
    (
      bounded (w.smap sid) (w.timers sid) (w.notices sid) (w.used sid) (sound sid),
      λ s e.
          (let fine = at-IsFine w sid s e sound in
            (
              fine.1,
              Step.fires w sid (λ t. (let r = fine.0 in absurd (cc))),
              told_time_out w sid s e fine.1,
            )),
    )

-- A session that has ended without a word.
IsLost : ℕ → Sdk → Type 0
IsLost sid w = (w.smap sid ≡ none) × (w.notices sid ≡ []) × (w.used sid ≡ true)

receive_for-IsLost :
    (o : Option Session) (w : Sdk) (sid k : ℕ) (body : Option Response)
    → w.smap k ≡ o
    → IsLost sid w
    → IsLost sid (receive_for o k body w)
unfolding IsLost
receive_for-IsLost none w sid k body e h = h
receive_for-IsLost (some s) w sid k body e h = elim (Bool-cases (sid == k)) [
  | inl f ↦
      let same : w.smap sid ≡ w.smap k = ap w.smap ((==_iff sid k).0 f) in
      let gone = h.0 in absurd (cc)
  | inr f ↦ rw f h
]

time_out_for-IsLost :
    (o : Option Session) (w : Sdk) (sid k : ℕ)
    → w.smap k ≡ o
    → IsLost sid w
    → IsLost sid (time_out_for o k w)
unfolding IsLost
time_out_for-IsLost none w sid k e h = h
time_out_for-IsLost (some s) w sid k e h = elim (Bool-cases (sid == k)) [
  | inl f ↦
      let same : w.smap sid ≡ w.smap k = ap w.smap ((==_iff sid k).0 f) in
      let gone = h.0 in absurd (cc)
  | inr f ↦ rw f h
]

Step-IsLost : (sid : ℕ) (w v : Sdk) → Step w v → IsLost sid w → IsLost sid v
unfolding IsLost begin_session drop_session receive time_out end_timer
Step-IsLost sid w v (Step.begins _ k s fresh) h = elim (Bool-cases (sid == k)) [
  | inl f ↦
      let same : w.used sid ≡ w.used k = ap w.used ((==_iff sid k).0 f) in
      let taken = h.2 in absurd (cc)
  | inr f ↦ rw f h
]
Step-IsLost sid w v (Step.send_fails _ k) h = elim (Bool-cases (sid == k)) [
  | inl f ↦ rw f (refl, h.1, h.2)
  | inr f ↦ rw f h
]
Step-IsLost sid w v (Step.receives _ k body) h = receive_for-IsLost (w.smap k) w sid k body refl h
Step-IsLost sid w v (Step.fires _ k runs) h = time_out_for-IsLost (w.smap k) w sid k refl h
Step-IsLost sid w v (Step.is_told _ k t) h = h

run-IsLost : (sid : ℕ) (w v : Sdk) → Steps w v → IsLost sid w → IsLost sid v
run-IsLost sid w v (Steps.done _) h = h
run-IsLost sid w v (Steps.then_step _ s r) h = run-IsLost sid _ v r (Step-IsLost sid w _ s h)

told_of-bad :
    (body : Option Response) (ns : List Notice)
    → ((r : Response) → body ≡ some r → is_valid r ≡ false)
    → told_of body ns ≡ ns
told_of-bad none ns bad = refl
told_of-bad (some r) ns bad = (let b = bad r refl in rw b refl)

receive-IsLost :
    (w : Sdk) (sid : ℕ) (s : Session) (body : Option Response)
    → IsSound w
    → w.smap sid ≡ some s
    → ((r : Response) → body ≡ some r → is_valid r ≡ false)
    → IsLost sid (receive sid body w)
unfolding IsLost receive
receive-IsLost w sid s body sound e bad =
    let fine = at-IsFine w sid s e sound in
    let here = (==_iff sid sid).1 refl in
    let silent = told_of-bad body (w.notices sid) bad in
    rw (e, receive, here, silent) (refl, fine.1, fine.2)

-- A reply that does not decode, or lacks its result or its values, ends a session without a word:
-- its timer has been stopped, and whatever happens afterwards, the session is told nothing, so
-- that DoDataOps, which waits for it, does not return.
pub Steps-silent :
    (w v : Sdk) (sid : ℕ) (s : Session) (body : Option Response)
    → Steps new_sdk w
    → w.smap sid ≡ some s
    → ((r : Response) → body ≡ some r → is_valid r ≡ false)
    → Steps (receive sid body w) v
    → v.notices sid ≡ []
unfolding IsLost
Steps-silent w v sid s body run e bad after =
    (run-IsLost sid (receive sid body w) v after
      (receive-IsLost w sid s body (run-IsSound new_sdk w run new_sdk-IsSound) e bad)).1
