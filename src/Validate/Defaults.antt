-- ===== src/Validate/Defaults.antt =====
-- Default datasources: a datasource that passes the check is the only default of its kind.
use perses.Prelude.{
  ◌≡◌, refl, String, true, ◌&&◌, List, [], ◌∷◌, ◌==◌, string_eq, arith, ap, sym, ◌∙◌, ◌↔◌, inl, inr,
  In, Bool-cases,
}
use perses.Prelude.Result.{ok}
use perses.Model.Resource.{Resource}
use perses.Model.Datasource.{DatasourceSpec}
use perses.Validate.{check_defaults, validate_unicity_of_default_dts}

module _ {M P : Type 0} (name_of : M → String) where
  -- No other datasource of the list is the default of the kind.
  abbrev pub IsOnlyDefault : String → String → List (Resource M (DatasourceSpec P)) → Type 0
  IsOnlyDefault name kind list =
      (d : Resource M (DatasourceSpec P))
      → In d list
      → d.spec.default_ ≡ true
      → d.spec.plugin.kind ≡ kind
      → name_of d.metadata ≡ name

  pub check_defaults-IsOnlyDefault :
      (name kind : String) (list : List (Resource M (DatasourceSpec P)))
      → check_defaults name_of name kind list ≡ ok tt
      → IsOnlyDefault name kind list
  unfolding check_defaults
  check_defaults-IsOnlyDefault name kind [] h d i def k = absurd i
  check_defaults-IsOnlyDefault name kind (x ∷ xs) h d (inl e) def k =
      let same : name ≡ name_of x.metadata = ground (
        arith,
        ap (λ y. y.spec.default_) e,
        ap (λ y. y.spec.plugin.kind) e,
        string_eq.beq_iff name (name_of x.metadata),
        string_eq.beq_iff x.spec.plugin.kind kind,
      ) in
      ap (λ y. name_of y.metadata) e ∙ sym same
  check_defaults-IsOnlyDefault name kind (x ∷ xs) h d (inr i) def k =
      check_defaults-IsOnlyDefault name kind xs (ground arith) d i def k

  IsOnlyDefault-check_defaults :
      (name kind : String) (list : List (Resource M (DatasourceSpec P)))
      → IsOnlyDefault name kind list
      → check_defaults name_of name kind list ≡ ok tt
  unfolding check_defaults
  IsOnlyDefault-check_defaults name kind [] only = refl
  IsOnlyDefault-check_defaults name kind (x ∷ xs) only =
      let tail = IsOnlyDefault-check_defaults name kind xs (λ d i. only d (inr i)) in
      elim (Bool-cases (name == name_of x.metadata)) [
        | inl e ↦ rw (e, tail) refl
        | inr e ↦ elim (Bool-cases (x.spec.default_ && x.spec.plugin.kind == kind)) [
          | inr b ↦ rw (e, b, tail) refl
          | inl b ↦
              let same : name_of x.metadata ≡ name =
                only x (inl refl) (ground arith)
                  (ground (arith, string_eq.beq_iff x.spec.plugin.kind kind)) in
              absurd (ground (arith, string_eq.beq_iff name (name_of x.metadata)))
        ]
      ]

  -- A datasource passes the check against a list exactly when it is no default or no datasource of
  -- the list with another name is a default for the same kind of plugin.
  pub validate_unicity_of_default_dts_iff :
      (entity : Resource M (DatasourceSpec P)) (list : List (Resource M (DatasourceSpec P)))
      → (validate_unicity_of_default_dts name_of entity list ≡ ok tt) ↔ (
          entity.spec.default_ ≡ true
          → IsOnlyDefault (name_of entity.metadata) entity.spec.plugin.kind list)
  unfolding validate_unicity_of_default_dts
  validate_unicity_of_default_dts_iff entity list = elim (Bool-cases entity.spec.default_) [
    | inr e ↦ (λ h d. absurd (ground arith), λ only. rw e refl)
    | inl e ↦ (
      λ h d.
          check_defaults-IsOnlyDefault (name_of entity.metadata) entity.spec.plugin.kind list
            (checked e h),
      λ only. rw e (
          IsOnlyDefault-check_defaults (name_of entity.metadata) entity.spec.plugin.kind list
            (only e)),
    )
  ]
    where
      checked :
          entity.spec.default_ ≡ true
          → validate_unicity_of_default_dts name_of entity list ≡ ok tt
          → check_defaults name_of (name_of entity.metadata) entity.spec.plugin.kind list ≡ ok tt
      checked e h = rw (e, validate_unicity_of_default_dts) at h
