-- ===== src/Service/Entity/Updates.antt =====
-- The lemmas by which an update of any kind is shown to replace the entity of the path.
use Prim.Native.String.{len}
use perses.Prelude.{
  ℕ, ◌≡◌, refl, sym, ◌∙◌, subst, ap, true, ◌==◌, string_eq, eqb, arith, ◌⊎◌, inl, inr, Bool-cases,
}
use perses.Prelude.Result.{Result, Error, ok, err}
use perses.Model.Metadata.{Metadata, ProjectMetadata, update_project, update as update_metadata}
use perses.Toolbox.{Parameters, or_bad_request}
use perses.Toolbox.Binding.{ok_inj}
use perses.Service.Entity.{
  Entity, Dao, on_ok, on_ok-cases, with_project, check_path, updated, IsUpdate, check_name,
  updated_global, IsGlobalUpdate,
}

-- An update fails and changes nothing, or the entity exists and is replaced by a new one which stands
-- in the relation `P` to it.
unfoldable pub Replaces :
    {K Q R DB : Type 0} → Dao K Q R DB → K → (R → R → Type 0) → DB → Result R × DB → Type 0
Replaces {R = R} dao k P db out =
    ((c : Error) × (out ≡ (err c, db)))
    ⊎ ((old : R) × (new : R) × (dao.get_entity k db ≡ ok old)
        × P old new
        × (out ≡ dao.update_entity new db))

module _ {K Q R DB : Type 0} (dao : Dao K Q R DB) (k : K) (P : R → R → Type 0) (db : DB) where
  pub on_ok-Replaces :
      {A : Type 0} (r : Result A) (next : A → Result R × DB)
      → ((a : A) → r ≡ ok a → Replaces dao k P db (next a))
      → Replaces dao k P db (on_ok r db next)
  unfolding Replaces
  on_ok-Replaces r next h = elim (on_ok-cases r db next) [
    | inl (c, q, same) ↦ inl (c, same)
    | inr (a, q, same) ↦ subst (Replaces dao k P db) (sym same) (h a q)
  ]

  pub replace-Replaces :
      (new : R → R)
      → ((old : R) → P old (new old))
      → Replaces dao k P db (on_ok (dao.get_entity k db) db (λ old. dao.update_entity (new old) db))
  unfolding Replaces
  replace-Replaces new h =
      on_ok-Replaces (dao.get_entity k db) _ (λ old q. inr (old, new old, q, h old, refl))

module _ {R : Type 0} ⦃e : Entity ProjectMetadata R⦄ where
  record IsPlaced (r : R) (p : Parameters) (f : R) : Type 0 where
    named : (e.metadata_of f).name ≡ p.name
    placed : (e.metadata_of f).project ≡ p.project
    same_rest : (m : ProjectMetadata) → e.with_metadata m f ≡ e.with_metadata m r

  filled-IsPlaced :
      (r : R) (p : Parameters)
      → (e.metadata_of r).name ≡ p.name
      → IsPlaced r p (e.with_metadata (record (e.metadata_of r) { project = p.project }) r)
  filled-IsPlaced r p n =
      let back : e.metadata_of
            (e.with_metadata (record (e.metadata_of r) { project = p.project }) r)
          ≡ record (e.metadata_of r) { project = p.project } =
        e.metadata_of-with_metadata _ r in
      record {
        named = ap (λ m. m.name) back ∙ n;
        placed = ap (λ m. m.project) back;
        same_rest = λ m. e.with_metadata-twice m _ r;
      }

  check_path-IsPlaced : (r f : R) (p : Parameters) → check_path r p ≡ ok f → IsPlaced r p f
  unfolding check_path with_project
  check_path-IsPlaced r f p h = elim (Bool-cases ((e.metadata_of r).name == p.name)) [
    | inr n ↦ absurd (ground arith)
    | inl n ↦ elim (Bool-cases (eqb (len (e.metadata_of r).project) 0)) [
      | inl z ↦ subst (IsPlaced r p) (ok_inj _ f (filled n z)) (filled-IsPlaced r p (same n))
      | inr z ↦ elim (Bool-cases ((e.metadata_of r).project == p.project)) [
        | inr m ↦ absurd (ground arith)
        | inl m ↦ subst (IsPlaced r p) (ok_inj r f (ground arith)) (record {
          named = same n;
          placed = (string_eq.beq_iff (e.metadata_of r).project p.project).0 m;
          same_rest = λ m. refl;
        })
      ]
    ]
  ]
    where
      same : ((e.metadata_of r).name == p.name) ≡ true → (e.metadata_of r).name ≡ p.name
      same n = (string_eq.beq_iff (e.metadata_of r).name p.name).0 n

      filled :
          ((e.metadata_of r).name == p.name) ≡ true
          → eqb (len (e.metadata_of r).project) 0 ≡ true
          → ok (e.with_metadata (record (e.metadata_of r) { project = p.project }) r) ≡ ok f
      filled n z = ground arith

  pub updated-IsUpdate :
      (now : ℕ) (r f : R) (p : Parameters)
      → check_path r p ≡ ok f
      → (old : R) → IsUpdate r p old (updated now f old)
  unfolding updated update_project update_metadata
  updated-IsUpdate now r f p h old =
      let i = check_path-IsPlaced r f p h in
      let back =
        e.metadata_of-with_metadata (update_project now (e.metadata_of f) (e.metadata_of old)) f in
      record {
        named = ap (λ m. m.name) back ∙ i.named;
        placed = ap (λ m. m.project) back ∙ i.placed;
        kept = ap (λ m. m.created_at) back;
        counted = ap (λ m. m.version) back;
        same_rest = λ m. e.with_metadata-twice m _ f ∙ i.same_rest m;
      }

module _ {R : Type 0} ⦃e : Entity Metadata R⦄ where
  pub updated-IsGlobalUpdate :
      (now : ℕ) (r f : R) (p : Parameters)
      → check_name r p ≡ ok f
      → (old : R) → IsGlobalUpdate r p old (updated_global now f old)
  unfolding updated_global update_metadata check_name
  updated-IsGlobalUpdate now r f p h old =
      let back =
        e.metadata_of-with_metadata (update_metadata now (e.metadata_of f) (e.metadata_of old)) f in
      let n : ((e.metadata_of r).name == p.name) ≡ true = ground arith in
      let same : r ≡ f = ok_inj r f (ground arith) in
      record {
        named =
            ap (λ m. m.name) back
            ∙ (ap (λ x. (e.metadata_of x).name) (sym same)
                ∙ (string_eq.beq_iff (e.metadata_of r).name p.name).0 n);
        kept = ap (λ m. m.created_at) back;
        counted = ap (λ m. m.version) back;
        same_rest = λ m. e.with_metadata-twice m _ f ∙ ap (λ x. e.with_metadata m x) (sym same);
      }

pub or_bad_request-eq-ok : {A : Type 0} (r : Result A) {a : A} → or_bad_request r ≡ ok a → r ≡ ok a
or_bad_request-eq-ok (err e) h = cc
or_bad_request-eq-ok (ok b) h = h
