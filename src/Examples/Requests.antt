-- ===== src/Examples/Requests.antt =====
-- Requests on the dashboards of the project "p" by a user who may do everything there.
use perses.Prelude.{
  String, ◌≡◌, refl, true, false, List, [], ◌∷◌, ◌==◌, string_eq, ◌⊎◌, inl, inr, sym, ap, subst,
  eqb, if◌then◌else◌, arith, In, contains,
}
use perses.Prelude.Text.{to_lower, by_lower}
use perses.Prelude.Result.{Error, ok, err}
use perses.Model.Permission.{
  Scope, get_scope, create_action, update_action, read_action, is_global_scope,
}
use perses.Toolbox.{
  Authorization, Request, Parameters, in_project, Entity, Service, extract_parameters, bind, create,
  update, delete, reply, reply_no_content, check_permission_list,
}
use perses.Toolbox.Binding.{project_of, has_place, is_in_project}
use perses.Toolbox.Writes.{
  MayDelete, Permitted, create-Permitted, update-Permitted, delete-Permitted,
}
use perses.Toolbox.Listing.{
  Query, ListService, list, list_when_permission_is_activated, list_for, metadata_or_full_list,
}
use perses.Toolbox.Visible.{IsVisible, list-IsVisible}
use perses.Toolbox.Binding.{ok_inj}
use perses.Model.Permission.{project_scope}
use Prim.Native.String.{len}

abbrev only_in_p : Authorization
only_in_p = record {
  is_enabled = true;
  has_permission = λ action project scope. project == "p";
  has_create_project_permission = λ project. false;
  get_user_projects = λ action scope. ok ("p" ∷ []);
}

-- A store of names.
abbrev names_service : Service String String (List String)
names_service = record {
  create_entity = λ entity db. (ok entity.spec, entity.spec ∷ db);
  update_entity = λ entity p db. (ok entity.spec, entity.spec ∷ db);
  delete_entity = λ p db. (ok tt, []);
  get_entity = λ p db. ok p.name;
}

abbrev request_in_p : Request
request_in_p = record { content_type = "application/json"; param_project = "p"; param_name = "d" }

abbrev dashboard_in_p : Entity String
dashboard_in_p = record {
  metadata = in_project (record {
    metadata = record { name = "d"; created_at = 0; updated_at = 0; version = 0; tags = [] };
    project = "p";
  });
  spec = "body";
}

in_place :
    (scope : Scope)
    → get_scope "Dashboard" ≡ ok scope
    → has_place scope dashboard_in_p.metadata ≡ true
unfolding has_place is_in_project
in_place scope h = ground arith

create-Permitted_example :
    ((e : Error) × (create names_service only_in_p "Dashboard" true request_in_p
          (ok dashboard_in_p)
          []
        ≡ (err e, [])))
    ⊎ ((entity : Entity String) × (create names_service only_in_p "Dashboard" true request_in_p
            (ok dashboard_in_p)
            []
          ≡ reply (names_service.create_entity entity []))
        × (bind true request_in_p (ok dashboard_in_p) ≡ ok entity)
        × Permitted only_in_p "Dashboard" create_action (λ s. project_of s entity.metadata))
create-Permitted_example =
    create-Permitted names_service only_in_p "Dashboard" true request_in_p dashboard_in_p []
      in_place

update-Permitted_example :
    ((e : Error) × (update names_service only_in_p "Dashboard" true request_in_p
          (ok dashboard_in_p)
          []
        ≡ (err e, [])))
    ⊎ ((entity : Entity String) × (update names_service only_in_p "Dashboard" true request_in_p
            (ok dashboard_in_p)
            []
          ≡ reply (names_service.update_entity entity (extract_parameters request_in_p true) []))
        × (bind true request_in_p (ok dashboard_in_p) ≡ ok entity)
        × Permitted only_in_p "Dashboard" update_action (λ s. project_of s entity.metadata))
update-Permitted_example =
    update-Permitted names_service only_in_p "Dashboard" true request_in_p dashboard_in_p []
      in_place

delete-Permitted_example :
    (MayDelete only_in_p "Dashboard" (extract_parameters request_in_p true)
      × (delete names_service only_in_p "Dashboard" true request_in_p ("d" ∷ [])
          ≡ reply_no_content
              (names_service.delete_entity (extract_parameters request_in_p true) ("d" ∷ []))))
    ⊎ ((MayDelete only_in_p "Dashboard" (extract_parameters request_in_p true) → ⊥)
        × (e : Error) × (delete names_service only_in_p "Dashboard" true request_in_p ("d" ∷ [])
            ≡ (err e, "d" ∷ [])))
delete-Permitted_example =
    delete-Permitted names_service only_in_p "Dashboard" true request_in_p ("d" ∷ [])

abbrev pub two_rows : ListService String String
two_rows = record {
  full_list = λ q p. ok ("d" ∷ "e" ∷ []);
  raw_list = λ q p. ok [];
  metadata_list = λ q p. ok [];
  raw_metadata_list = λ q p. ok [];
}

abbrev pub all_of_p : Parameters
all_of_p = record { project = "p"; name = "" }

abbrev pub full_query : Query String
full_query = record {
  metadata_only = false;
  raw_allowed = false;
  raw_metadata_allowed = false;
  filter = "";
}

-- Rows with their projects, of which a list returns those of the project that is asked for.
abbrev row_of : String → List (String × String)
row_of project = if eqb (len project) 0 then [] else (project, "d") ∷ []

abbrev in_projects : ListService String (String × String)
in_projects = record {
  full_list = λ q p. ok (row_of p.project);
  raw_list = λ q p. ok [];
  metadata_list = λ q p. ok [];
  raw_metadata_list = λ q p. ok [];
}

in_projects-answers :
    (asked : Parameters) (rows : List (String × String)) (row : String × String)
    → eqb (len asked.project) 0 ≡ false
    → metadata_or_full_list in_projects (λ r. r.1) asked full_query ≡ ok rows
    → In row rows
    → row.0 ≡ asked.project
unfolding metadata_or_full_list
in_projects-answers asked rows row some_name h i =
    ap (λ (x : String × String). x.0)
      (the_one (subst (λ xs. In row xs) (sym (ok_inj _ rows (rw some_name at h))) i))
  where
    the_one : In row ((asked.project, "d") ∷ []) → row ≡ (asked.project, "d")
    the_one (inl e) = e
    the_one (inr j) = absurd j

listed :
    list in_projects (λ r. r.1) only_in_p "Dashboard" all_of_p full_query ≡ ok (("p", "d") ∷ [])
unfolding list list_when_permission_is_activated list_for metadata_or_full_list get_scope by_lower
    to_lower check_permission_list is_global_scope contains
listed = refl

only_p_named :
    (scope : Scope) (projects : List String)
    → only_in_p.get_user_projects read_action scope ≡ ok projects
    → In "" projects
    → ⊥
only_p_named scope projects h i =
    nobody (subst (λ xs. In {A = String} "" xs) (sym (ok_inj ("p" ∷ []) projects h)) i)
  where
    nobody : In {A = String} "" ("p" ∷ []) → ⊥
    nobody (inl e) = ground (arith, string_eq.beq_iff "" "p", e)
    nobody (inr j) = j

list-IsVisible_example :
    (scope : Scope) × (projects : List String) × (get_scope "Dashboard" ≡ ok scope)
    × (only_in_p.get_user_projects read_action scope ≡ ok projects)
    × ((row : String × String)
        → In row (("p", "d") ∷ [])
        → IsVisible only_in_p scope projects row.0 ⊎ ((scope ≡ project_scope) × In row.1 projects))
list-IsVisible_example =
    list-IsVisible in_projects (λ r. r.1) (λ r. r.0) only_in_p "Dashboard" all_of_p full_query
      in_projects-answers only_p_named (("p", "d") ∷ []) refl listed
