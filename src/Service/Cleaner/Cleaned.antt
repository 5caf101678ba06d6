-- ===== src/Service/Cleaner/Cleaned.antt =====
-- The cleaner removes what has outlived its time, and nothing else.
use perses.Prelude.{
  ℕ, ◌≡◌, sym, ap, ◌∙◌, Bool, false, List, [], ◌∷◌, none, ◌==◌, ◌&&◌, ◌||◌, if◌then◌else◌, arith,
  inl, inr, Bool-cases, Option-cases,
}
use perses.Prelude.GoMap.{lookup, lookup-delete}
use perses.Prelude.Result.{Result, ok}
use perses.Model.Metadata.{new_project_metadata}
use perses.Toolbox.{in_project, EntityMetadata}
use perses.Model.Kind.{Kind}
use perses.Database.Path.{FilePath, path_eq}
use perses.Database.File.{FileSystem, Codec, generate_id, build_path, delete_document, remove_file}
use perses.Database.File as File
use perses.Service.Persistence.{project_dao}
use perses.Service.EphemeralDashboard.{EphemeralDashboard, EphemeralSpec}
use perses.Service.Project.Steps.{chain-eq-ok, on_ok-eq-ok}
use perses.Service.Cleaner.{is_outlived, clean_each, execute}

-- The file of an ephemeral dashboard.
abbrev pub file_of : {P A : Type 0} → File.Dao → EphemeralDashboard P A → FilePath
file_of d r = build_path d (
    generate_id "EphemeralDashboard"
      (in_project (new_project_metadata r.metadata.project r.metadata.name)))

-- Whether a file is that of a dashboard of the list that has outlived its time.
pub holds_outlived : {P A : Type 0} → File.Dao → ℕ → List (EphemeralDashboard P A) → FilePath → Bool
holds_outlived d now [] p = false
holds_outlived d now (r ∷ rest) p =
    (is_outlived now r && (file_of d r == p)) || holds_outlived d now rest p

delete_document-eq-ok :
    {D : Type 0} (d : File.Dao) (kind : Kind) (m : EntityMetadata) (fs after : FileSystem D)
    {x : Unit {0}}
    → delete_document d kind m fs ≡ (ok x, after)
    → (p : FilePath)
    → lookup p after.files
      ≡ (if build_path d (generate_id kind m) == p then none else lookup p fs.files)
unfolding delete_document remove_file
delete_document-eq-ok {D = D} d kind m fs after h p =
    elim (Option-cases (lookup (build_path d (generate_id kind m)) fs.files)) [
      | inl e ↦ cc (rw (e, delete_document) at h)
      | inr (c, e) ↦
          let removed =
            ap (λ (o : Result (Unit {0}) × FileSystem D). lookup p o.1.files)
              (rw (e, delete_document) at h) in
          sym removed ∙ lookup-delete (build_path d (generate_id kind m)) p fs.files
    ]

module _ {P A D : Type 0} (codec : Codec (EphemeralSpec P A) D) (d : File.Dao) where
  clean_each-lookup :
      (now : ℕ) (rs : List (EphemeralDashboard P A)) (fs after : FileSystem D)
      → clean_each (project_dao codec d "EphemeralDashboard") now rs fs ≡ (ok tt, after)
      → (p : FilePath)
      → lookup p after.files ≡ (if holds_outlived d now rs p then none else lookup p fs.files)
  unfolding clean_each holds_outlived project_dao
  clean_each-lookup now [] fs after h p =
      ap (λ (o : Result (Unit {0}) × FileSystem D). lookup p o.1.files) (sym h)
  clean_each-lookup now (r ∷ rest) fs after h p = elim (Bool-cases (is_outlived now r)) [
    | inl e ↦
        let (x, mid, h1, h2) =
          chain-eq-ok
            (delete_document d "EphemeralDashboard"
              (in_project (new_project_metadata r.metadata.project r.metadata.name)) fs)
            _ (rw (e, clean_each) at h) in
        let first =
          delete_document-eq-ok d "EphemeralDashboard"
            (in_project (new_project_metadata r.metadata.project r.metadata.name)) fs mid h1 p in
        let others = clean_each-lookup now rest mid after h2 p in ground (arith, first, others, e)
    | inr e ↦
        let others = clean_each-lookup now rest fs after (rw (e, clean_each) at h) p in
        ground (arith, others, e)
  ]

  -- When a run of the cleaner over the database in files succeeds, every file holds what it held
  -- before, but for those of the ephemeral dashboards whose time to live had passed since they were
  -- last updated: they are gone. The dashboards are those that a query of all projects lists.
  pub execute-Cleans :
      (now : ℕ) (fs after : FileSystem D)
      → execute (project_dao codec d "EphemeralDashboard") now fs ≡ (ok tt, after)
      → (rs : List (EphemeralDashboard P A)) × ((project_dao codec d
              "EphemeralDashboard").list_entities
            (record { name_prefix = ""; project = "" })
            fs
          ≡ ok rs)
        × ((p : FilePath)
            → lookup p after.files
              ≡ (if holds_outlived d now rs p then none else lookup p fs.files))
  unfolding execute
  execute-Cleans now fs after h =
      let (rs, l, k) = on_ok-eq-ok _ fs _ h in (rs, l, clean_each-lookup now rs fs after k)
