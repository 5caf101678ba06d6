-- ===== src/Service/Datasource/Writes.antt =====
-- A default datasource is stored only when it is the only one of its kind in the project.
use Prim.Native.String.{len}
use perses.Prelude.{
  ℕ, String, Bool, eqb, arith, string_eq, true, false, ◌≡◌, sym, List, Option, none, some, ◌⊎◌, inl,
  inr, Bool-cases,
}
use perses.Prelude.Result.{ok, >>=-eq-ok, >>-eq-ok}
use perses.Model.Metadata.{ProjectMetadata}
use perses.Model.Datasource.{Datasource}
use perses.Validate.{Schema, validate_datasource, validate_datasource_plugin}
use perses.Validate.Defaults.{IsOnlyDefault, validate_unicity_of_default_dts_iff}
use perses.Toolbox.{Parameters}
use perses.Toolbox.Binding.{ok_inj}
use perses.Service.Entity.{IsUpdate, updated, check_path, with_project, resource_entity}
use perses.Prelude.Text.{empty_text}
use perses.Service.Entity.Updates.{
  Replaces, on_ok-Replaces, replace-Replaces, updated-IsUpdate, or_bad_request-eq-ok,
}
use perses.Service.Datasource.{Query, DatasourceDao, list_for_default, validate, update}

abbrev name_of : ProjectMetadata → String
name_of m = m.name

module _ {P V A DB : Type 0} (dao : DatasourceDao P DB) (schema : Schema P V A) where
  -- The datasources of the project that the check of a default reads.
  abbrev pub all_of : String → Query
  all_of project = record { name_prefix = ""; project = project; kind = ""; default_ = none }

  -- Where a default is looked for: in the project of the path, or in all of them, by an empty name,
  -- when the request names none.
  abbrev pub IsSearched : Datasource P → Parameters → String → Type 0
  IsSearched r p project =
      ((eqb (len r.metadata.project) 0 ≡ false) × (project ≡ p.project))
      ⊎ ((eqb (len r.metadata.project) 0 ≡ true) × (project ≡ ""))

  -- The schema of the plugin accepts the datasource, and if it is a default, then no other one in the
  -- project that is searched is a default for the kind of its plugin.
  pub record IsChecked (db : DB) (r : Datasource P) (p : Parameters) : Type 0 where
    pub accepted : validate_datasource_plugin schema r.spec.plugin r.metadata.name ≡ ok tt
    pub alone :
        r.spec.default_ ≡ true
        → (project : String) × IsSearched r p project
          × (list : List (Datasource P)) × (dao.list_entities (all_of project) db ≡ ok list)
          × IsOnlyDefault name_of r.metadata.name r.spec.plugin.kind list

  -- The same before the path is known.
  record IsValid (db : DB) (r : Datasource P) : Type 0 where
    accepted : validate_datasource_plugin schema r.spec.plugin r.metadata.name ≡ ok tt
    alone :
        r.spec.default_ ≡ true
        → (list : List (Datasource P)) × (dao.list_entities (all_of r.metadata.project) db
            ≡ ok list)
          × IsOnlyDefault name_of r.metadata.name r.spec.plugin.kind list

  list_for_default-eq-ok :
      (r : Datasource P) (db : DB) (found : Option (List (Datasource P)))
      → list_for_default dao schema r db ≡ ok found
      → ((r.spec.default_ ≡ false) × (found ≡ none))
        ⊎ ((list : List (Datasource P)) × (dao.list_entities (all_of r.metadata.project) db
              ≡ ok list)
            × (found ≡ some list))
  unfolding list_for_default
  list_for_default-eq-ok r db found h = elim (Bool-cases r.spec.default_) [
    | inr e ↦ inl (e, sym (ok_inj none found (rw (e, list_for_default) at h)))
    | inl e ↦
        let (list, l, k) =
          >>=-eq-ok (dao.list_entities (all_of r.metadata.project) db) _
            (rw (e, list_for_default) at h) in
        inr (list, l, sym (ok_inj (some list) found k))
  ]

  checked :
      (r : Datasource P) (db : DB) (found : Option (List (Datasource P)))
      → ((r.spec.default_ ≡ false) × (found ≡ none))
        ⊎ ((list : List (Datasource P)) × (dao.list_entities (all_of r.metadata.project) db
              ≡ ok list)
            × (found ≡ some list))
      → validate_datasource schema name_of r found ≡ ok tt
      → IsValid db r
  unfolding validate_datasource
  checked r db found (inl (e, none_found)) h = record {
    accepted = rw none_found at h;
    alone = λ d. absurd (wrong d e);
  }
    where
      wrong : {b : Bool} → b ≡ true → b ≡ false → ⊥
      wrong d e = cc
  checked r db found (inr (list, l, some_found)) h =
      let (plugin, only) =
        >>-eq-ok (validate_datasource_plugin schema r.spec.plugin r.metadata.name) _
          (rw some_found at h) in
      record {
        accepted = plugin;
        alone = λ d. (list, l, (validate_unicity_of_default_dts_iff name_of r list).0 only d);
      }

  validate-IsValid : (r : Datasource P) (db : DB) → validate dao schema r db ≡ ok tt → IsValid db r
  unfolding validate
  validate-IsValid r db h =
      let (found, l, k) = >>=-eq-ok (list_for_default dao schema r db) _ h in
      checked r db found (list_for_default-eq-ok r db found l) k

  check_path-IsSearched :
      (r f : Datasource P) (p : Parameters)
      → check_path r p ≡ ok f
      → IsSearched r p r.metadata.project
  unfolding check_path with_project
  check_path-IsSearched r f p h =
      ground (arith, string_eq.beq_iff r.metadata.project p.project, empty_text r.metadata.project)

  IsValid-IsChecked :
      (db : DB) (r f : Datasource P) (p : Parameters)
      → check_path r p ≡ ok f
      → IsValid db r
      → IsChecked db r p
  IsValid-IsChecked db r f p h v = record {
    accepted = v.accepted;
    alone = λ d.
        let (list, l, only) = v.alone d in
        (r.metadata.project, check_path-IsSearched r f p h, list, l, only);
  }

  -- An update of a datasource fails and changes nothing, or the request passed the schema of its
  -- plugin and replaces the datasource of the path; and if it is a default, then no other datasource is
  -- one for the same kind of plugin, in the project of the path where the request names its project,
  -- and in the list for an empty project where it names none.
  pub update-IsChecked :
      (now : ℕ) (r : Datasource P) (p : Parameters) (db : DB)
      → Replaces dao p
          (λ old new. IsUpdate r p old new × IsChecked db r p)
          db
          (update dao schema now r p db)
  unfolding update
  update-IsChecked now r p db =
      on_ok-Replaces dao p (λ old new. IsUpdate r p old new × IsChecked db r p) db _ _
        (λ t v.
          on_ok-Replaces dao p (λ old new. IsUpdate r p old new × IsChecked db r p) db _ _
            (λ f q.
              replace-Replaces dao p (λ old new. IsUpdate r p old new × IsChecked db r p) db
                (updated now f)
                (λ old. (
                  updated-IsUpdate now r f p q old,
                  IsValid-IsChecked db r f p q
                      (validate-IsValid r db (or_bad_request-eq-ok (validate dao schema r db) v)),
                ))))
