-- ===== src/Service/Messages/Dispatch.antt =====
-- Which handler a message goes to, and when Process panics.
use common_fw.Common.{
  ℕ, ℤ, ◌≡◌, refl, ap, sym, subst, ◌≢◌, ◌↔◌, ◌⊎◌, inl, inr, true, false, Option, none, some, ◌==◌,
  if◌then◌else◌, put, exists, Bool-cases, Option-cases, arith,
}
use common_fw.Service.Messages.{
  Handle, MsgMap, Handlers, Processed, panics, refused, reg, zero_msg_id, uniform_result, is_zero,
  by_uniform, by_handle, dispatch, process,
}

dispatch-same :
    (hs : Handlers) (a b : MsgMap) (x : Option Handle) (body : ℕ)
    → a 0 ≡ b 0
    → dispatch hs a x body ≡ dispatch hs b x body
dispatch-same hs a b (some (some h)) body e = refl
dispatch-same hs a b (some none) body e = ap (λ (y : Option Handle). by_uniform hs y body) e
dispatch-same hs a b none body e = ap (λ (y : Option Handle). by_uniform hs y body) e

-- Reg takes a handler for an id that has none: then messages with that id and a body go to the
-- handler, messages with another id go where they went, and
-- a second Reg of the id fails. The handler is not nil and the id is not 0.
pub process-reg :
    (hs : Handlers) (m m' : MsgMap) (id h : ℕ)
    → id ≢ 0
    → reg id (some h) m ≡ some m'
    → ((body : ℕ)
        → process hs m' (record { header = some (some id); body = body }) ≡ by_handle hs h body)
      × ((j body : ℕ)
          → (j == id) ≡ false
          → process hs m' (record { header = some (some j); body = body })
            ≡ process hs m (record { header = some (some j); body = body }))
      × ((g : Handle) → reg id g m' ≡ none)
unfolding reg process
process-reg hs m m' id h nonzero e = elim (Bool-cases (exists (m id))) [
  | inl f ↦ absurd (let e' = rw f at e in cc)
  | inr f ↦
      let e' : ◌≡◌ {A = Option MsgMap} (some (put m id (some h))) (some m') = rw f at e in
      let same : put m id (some h) ≡ m' = cc in
      let self : (id == id) ≡ true = ground arith in
      let id_zero : (id == 0) ≡ false = ground arith in
      let zero_id : (0 == id) ≡ false = ground arith in
      (
        (λ body. rw (← same) (rw (id_zero, self) refl)),
        (λ j body ne. rw (← same) (
            rw ne (
              let uni : put m id (some h) 0 ≡ m 0 = rw zero_id refl in
              ap (λ (y : Processed). if j == 0 then refused zero_msg_id else y)
                (dispatch-same hs (put m id (some h)) m (m j) body uni)))),
        (λ g. rw (← same) (rw self refl)),
      )
]

-- A uniform handler that is nil, or that returns a result other than 0 with a nil error.
abbrev pub IsUnchecked : Handlers → Option Handle → ℕ → Type 0
IsUnchecked hs uni body =
    (uni ≡ some none)
    ⊎ ((u : ℕ) × (uni ≡ some (some u))
        × ((hs.process_raw u body).1 ≡ none)
        × (is_zero (hs.process_raw u body).0 ≡ false))

by_handle-ends : (hs : Handlers) (h body : ℕ) → by_handle hs h body ≢ panics
by_handle-ends hs h body e = elim (Option-cases (hs.decode h body)) [
  | inl f ↦ (let e' = rw (f, by_handle) at e in cc)
  | inr (x, f) ↦ (let e' = rw (f, by_handle) at e in cc)
]

uniform_result-panics :
    (res : ℤ) (e : Option ℕ)
    → (uniform_result res e ≡ panics) ↔ ((e ≡ none) × (is_zero res ≡ false))
uniform_result-panics res (some e) = (λ f. absurd (cc), λ (f, g). absurd (cc))
uniform_result-panics res none = elim (Bool-cases (is_zero res)) [
  | inl z ↦ (λ f. (let f' = rw z at f in absurd (cc)), λ (f, g). absurd (cc))
  | inr z ↦ (λ f. (refl, z), λ h. rw z refl)
]

by_uniform-panics :
    (hs : Handlers) (uni : Option Handle) (body : ℕ)
    → (by_uniform hs uni body ≡ panics) ↔ IsUnchecked hs uni body
by_uniform-panics hs none body =
    (λ e. absurd (cc), elim [ inl e ↦ absurd (cc) | inr (u, e, f, g) ↦ absurd (cc) ])
by_uniform-panics hs (some none) body = (λ e. inl refl, λ h. refl)
by_uniform-panics hs (some (some u)) body =
    let (forth, back) = uniform_result-panics (hs.process_raw u body).0 (hs.process_raw u body).1 in
    (
      λ e. (let (a, b) = forth e in inr (u, refl, a, b)),
      elim [
        | inl e ↦ absurd (cc)
        | inr (v, e, f, g) ↦
            let same : u ≡ v = cc in
            back (
              subst
                (λ x.
                  ((hs.process_raw x body).1 ≡ none) × (is_zero (hs.process_raw x body).0 ≡ false))
                (sym same) (f, g))
      ],
    )

-- The bug: Process panics exactly if a message has an id that is not 0 and no handler, and the
-- uniform handler is nil, or returns a result other than 0 with a nil error.
pub process-panics :
    (hs : Handlers) (m : MsgMap) (id body : ℕ)
    → (process hs m (record { header = some (some id); body = body }) ≡ panics)
      ↔ ((id ≢ 0) × ((h : ℕ) → m id ≢ some (some h)) × IsUnchecked hs (m 0) body)
unfolding process
process-panics hs m id body = elim (Bool-cases (id == 0)) [
  | inl e ↦
      let zero_id : id ≡ 0 = ground arith in
      (λ f. (let f' = rw e at f in absurd (cc)), λ (a, b, c). absurd (a zero_id))
  | inr e ↦ let nonzero : id ≢ 0 = λ z. ground arith in rw e (from nonzero (m id) refl)
]
  where
    from :
        id ≢ 0
        → (x : Option Handle) → m id ≡ x
        → (dispatch hs m (m id) body ≡ panics)
          ↔ ((id ≢ 0) × ((h : ℕ) → m id ≢ some (some h)) × IsUnchecked hs (m 0) body)
    from nonzero (some (some h)) e = (
      λ f. (let f' = rw e at f in absurd (by_handle-ends hs h body f')),
      λ (a, b, c). absurd (b h e),
    )
    from nonzero (some none) e = (
      λ f. (let f' = rw e at f in (nonzero, (λ h g. cc), (by_uniform-panics hs (m 0) body).0 f')),
      λ (a, b, c). rw e ((by_uniform-panics hs (m 0) body).1 c),
    )
    from nonzero none e = (
      λ f. (let f' = rw e at f in (nonzero, (λ h g. cc), (by_uniform-panics hs (m 0) body).0 f')),
      λ (a, b, c). rw e ((by_uniform-panics hs (m 0) body).1 c),
    )
