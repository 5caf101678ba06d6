-- ===== src/Service/Persistence/Reads.antt =====
-- What a DAO over the database in files reads after an update.
use perses.Prelude.{◌≡◌, refl, sym, ◌∙◌, ap, subst, string_eq, inl, inr, Bool-cases}
use perses.Prelude.Result.{Error, ok, err}
use perses.Model.Kind.{Kind}
use perses.Model.Metadata.{ProjectMetadata, new_project_metadata, new_metadata, flatten_project}
use perses.Model.Resource.{Resource}
use perses.Toolbox.{in_project, flatten_metadata}
use perses.Toolbox.Binding.{ok_inj}
use perses.Database.Path.{path_eq}
use perses.Database.File.{
  Document, FileSystem, Codec, get, upsert, generate_id, build_path, check_name,
}
use perses.Database.File as File
use perses.Database.File.Store.{IsLawful, Written, upsert-Written}
use perses.Service.Persistence.{project_document, project_resource, read_as, write_as, project_dao}

module _ {S D : Type 0} (codec : Codec S D) (d : File.Dao) (kind : Kind) where
  -- Only the project and the name of the metadata count.
  get-names :
      (m : ProjectMetadata) (fs : FileSystem D)
      → get codec d kind (in_project (new_project_metadata m.project m.name)) fs
        ≡ get codec d kind (in_project m) fs
  unfolding get generate_id flatten_metadata flatten_project new_project_metadata new_metadata
  get-names m fs = elim (Bool-cases d.case_sensitive) [ inl e ↦ rw e refl | inr e ↦ rw e refl ]

  update-out :
      (r : Resource ProjectMetadata S) (fs after : FileSystem D) {e : Resource ProjectMetadata S}
      → IsLawful codec d
      → r.kind ≡ kind
      → (project_dao codec d kind).update_entity r fs ≡ (ok e, after)
      → get codec d kind (in_project r.metadata) after ≡ ok (File.flattened d (project_document r))
        × (project_resource (File.flattened d (project_document r)) ≡ e)
  unfolding project_dao write_as read_as project_document Written
  update-out r fs after {e = e} law k h =
      let out = upsert codec d (project_document r) fs in
      let read : read_as project_resource out.0 ≡ ok e = ap (λ x. x.0) h in
      let there : out.1 ≡ after = ap (λ x. x.1) h in
      elim (upsert-Written codec d (project_document r) fs law) [
        | inl (same, found, others) ↦ (
          subst
              (λ fs.
                get codec d kind (in_project r.metadata) fs
                ≡ ok (File.flattened d (project_document r)))
              there
              (subst
                (λ j.
                  get codec d j (in_project r.metadata) out.1
                  ≡ ok (File.flattened d (project_document r)))
                k found),
          ok_inj _ e (sym (ap (read_as project_resource) same) ∙ read),
        )
        | inr (c, failed, files) ↦
            absurd (wrong c e (sym (ap (read_as project_resource) failed) ∙ read))
      ]
    where
      wrong : (c : Error) (e : Resource ProjectMetadata S) → err c ≡ ok e → ⊥
      wrong c e q = cc

  -- After an update that succeeded, the entity that it returned is what is read under its name and
  -- project.
  pub get_entity-update_entity :
      (r : Resource ProjectMetadata S) (fs after : FileSystem D) {e : Resource ProjectMetadata S}
      → IsLawful codec d
      → r.kind ≡ kind
      → (project_dao codec d kind).update_entity r fs ≡ (ok e, after)
      → (project_dao codec d kind).get_entity
          (record { project = r.metadata.project; name = r.metadata.name })
          after
        ≡ ok e
  unfolding project_dao read_as
  get_entity-update_entity r fs after law k h =
      let (found, same) = update-out r fs after law k h in
      ap (read_as project_resource) (get-names r.metadata after ∙ found) ∙ ap ok same
