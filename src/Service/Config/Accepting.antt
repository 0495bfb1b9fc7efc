-- ===== src/Service/Config/Accepting.antt =====
-- Which client configurations OnNewCfg accepts.
use common_fw.Common.{
  ℕ, ◌≡◌, refl, sym, ◌∙◌, ap, subst, ◌↔◌, ◌⊎◌, inl, inr, true, false, some, List, [], ◌∷◌, ◌==◌,
  if◌then◌else◌, put, All, Bool-cases, Option-cases, arith,
}
use common_fw.Service.Config.{
  Text, Texts, CfgError, CheckedEntries, consistent, rejected, convert_server_id_string_to_fields,
  check_rest, check_entries, client_cfg, ServiceCfg, loaded, failed, on_new_cfg,
}

module _ (texts : Texts) where
  -- An entry's id has this server type.
  abbrev pub IsOfType : ℕ → Text → Type 0
  IsOfType svr_type id =
      (n : ℕ) × (convert_server_id_string_to_fields texts id ≡ some (svr_type, n))

  -- There is an entry, all have its server type, and none behind it has its id.
  abbrev pub IsAcceptable : List Text → ℕ → Type 0
  IsAcceptable [] svr_type = ⊥
  IsAcceptable (first ∷ ids) svr_type =
      IsOfType svr_type first × All (λ id. IsOfType svr_type id × ((id == first) ≡ false)) ids

  check_rest-consistent :
      (svr_type k : ℕ) (first : Text) (ids : List Text)
      → check_rest texts svr_type first ids ≡ consistent k
      → (svr_type ≡ k) × All (λ id. IsOfType svr_type id × ((id == first) ≡ false)) ids
  unfolding check_rest
  check_rest-consistent svr_type k first [] e = (cc, tt)
  check_rest-consistent svr_type k first (id ∷ ids) e =
      elim (Option-cases (convert_server_id_string_to_fields texts id)) [
        | inl f ↦ absurd (let e' = rw (f, check_rest) at e in cc)
        | inr (p, f) ↦ elim (Bool-cases (p.0 == svr_type)) [
          | inr g ↦ absurd (let e' = rw (f, g, check_rest) at e in cc)
          | inl g ↦ elim (Bool-cases (id == first)) [
            | inl h ↦ absurd (let e' = rw (f, g, h, check_rest) at e in cc)
            | inr h ↦
                let e' : check_rest texts svr_type first ids ≡ consistent k =
                  rw (f, g, h, check_rest) at e in
                let (a, b) = check_rest-consistent svr_type k first ids e' in
                let same : p.0 ≡ svr_type = ground arith in
                (a, (((p.1, f ∙ ap (λ n. some (n, p.1)) same), h), b))
          ]
        ]
      ]

  check_rest-All :
      (svr_type : ℕ) (first : Text) (ids : List Text)
      → All (λ id. IsOfType svr_type id × ((id == first) ≡ false)) ids
      → check_rest texts svr_type first ids ≡ consistent svr_type
  unfolding check_rest
  check_rest-All svr_type first [] h = refl
  check_rest-All svr_type first (id ∷ ids) (((n, f), g), h) =
      let self : (svr_type == svr_type) ≡ true = ground arith in
      rw (f, check_rest) (rw (self, g) (check_rest-All svr_type first ids h))

  -- The entries' check says which server type they have exactly if there is an entry, all are of
  -- that type, and none behind the first has the first one's id; an id that stands twice behind the
  -- first is not noticed.
  pub check_entries-IsAcceptable :
      (ids : List Text) (svr_type : ℕ)
      → (check_entries texts ids ≡ consistent svr_type) ↔ IsAcceptable ids svr_type
  unfolding check_entries
  check_entries-IsAcceptable [] svr_type = (λ e. absurd (cc), λ h. absurd h)
  check_entries-IsAcceptable (first ∷ ids) svr_type = (forth, back)
    where
      forth :
          check_entries texts (first ∷ ids) ≡ consistent svr_type
          → IsAcceptable (first ∷ ids) svr_type
      forth e = elim (Option-cases (convert_server_id_string_to_fields texts first)) [
        | inl f ↦ absurd (let e' = rw (f, check_entries) at e in cc)
        | inr (p, f) ↦
            let (a, b) =
              check_rest-consistent p.0 svr_type first ids (rw (f, check_entries) at e) in
            subst (λ n. IsOfType n first × All (λ id. IsOfType n id × ((id == first) ≡ false)) ids)
              a ((p.1, f), b)
      ]

      back :
          IsAcceptable (first ∷ ids) svr_type
          → check_entries texts (first ∷ ids) ≡ consistent svr_type
      back ((n, f), h) = rw (f, check_entries) (check_rest-All svr_type first ids h)

  -- A client configuration is loaded, under its name and with its server type, if it has an entry,
  -- all entries are of one type and none behind the first has the first one's id; otherwise it
  -- fails. An id that stands twice behind the first is not noticed.
  pub on_new_cfg-client :
      (name : Text) (ids : List Text) (s : ServiceCfg)
      → ((svr_type : ℕ) × IsAcceptable ids svr_type
          × (s' : ServiceCfg) × (on_new_cfg texts name (client_cfg ids) s ≡ loaded s')
          × (s'.cli_cfg_map ≡ put s.cli_cfg_map name svr_type)
          × (s'.service_id ≡ s.service_id))
        ⊎ (((svr_type : ℕ) → ¬ IsAcceptable ids svr_type)
            × ((e : CfgError) × (on_new_cfg texts name (client_cfg ids) s ≡ failed e)))
  unfolding on_new_cfg
  on_new_cfg-client name ids s = from (check_entries texts ids) refl
    where
      from :
          (c : CheckedEntries)
          → check_entries texts ids ≡ c
          → ((svr_type : ℕ) × IsAcceptable ids svr_type
              × (s' : ServiceCfg) × (on_new_cfg texts name (client_cfg ids) s ≡ loaded s')
              × (s'.cli_cfg_map ≡ put s.cli_cfg_map name svr_type)
              × (s'.service_id ≡ s.service_id))
            ⊎ (((svr_type : ℕ) → ¬ IsAcceptable ids svr_type)
                × ((e : CfgError) × (on_new_cfg texts name (client_cfg ids) s ≡ failed e)))
      from (consistent k) e = inl (
        k,
        (check_entries-IsAcceptable ids k).0 e,
        record s {
          cli_cfg_map = put s.cli_cfg_map name k;
          reloaded = if s.cp k then k ∷ s.reloaded else s.reloaded;
        },
        rw e refl,
        refl,
        refl,
      )
      from (rejected x) e = inr (
        (λ k h. let f = (check_entries-IsAcceptable ids k).1 h in let g = sym e ∙ f in cc),
        (x, rw e refl),
      )
