-- ===== src/Toolbox/Listing.antt =====
-- internal/api/toolbox/list.go: how a list is answered, by one call of the service, or by one for
-- each project that the user can read. The calls run at once in the program; they only read, and
-- their results are taken in the order of the projects.
use Prim.Native.String.{len}
use perses.Prelude.{
  String, Bool, false, not, List, [], ◌∷◌, ◌++◌, none, some, ◌==◌, string_eq, eqb, if◌then◌else◌,
}
use perses.Prelude.GoMap.{GoMap, insert, lookup}
use perses.Prelude.Result.{Result, ok, ◌>>=◌}
use perses.Model.Permission.{Scope, get_scope, project_scope, read_action}
use perses.Model.User.{wildcard_project}
use perses.Toolbox.{
  Authorization, Request, Parameters, check_permission_list, extract_parameters, or_bad_request,
}

-- A query with the answers of its three methods.
pub record Query (V : Type 0) : Type 0 where
  pub metadata_only : Bool
  pub raw_allowed : Bool
  pub raw_metadata_allowed : Bool
  pub filter : V

-- The lists of a service. A row is an entity, its metadata or its JSON text.
pub record ListService (V R : Type 0) : Type 0 where
  pub full_list : Query V → Parameters → Result (List R)
  pub raw_list : Query V → Parameters → Result (List R)
  pub metadata_list : Query V → Parameters → Result (List R)
  pub raw_metadata_list : Query V → Parameters → Result (List R)

-- len(projects) == 1 && projects[0] == modelV1.WildcardProject
unfoldable pub is_wildcard : String → List String → Bool
is_wildcard first [] = first == wildcard_project
is_wildcard first (_ ∷ _) = false

module _ {V R : Type 0} (service : ListService V R) (name_of : R → String) where
  unfoldable pub metadata_or_full_list : Parameters → Query V → Result (List R)
  metadata_or_full_list p q =
      if q.metadata_only
      then if q.raw_metadata_allowed
        then service.raw_metadata_list q p
        else service.metadata_list q p
      else if q.raw_allowed
      then service.raw_list q p
      else service.full_list q p

  unfoldable pub build_map_from_list : List R → GoMap String R → GoMap String R
  build_map_from_list [] m = m
  build_map_from_list (item ∷ list) m = build_map_from_list list (insert (name_of item) item m)

  unfoldable pub keep_projects : List String → GoMap String R → List R
  keep_projects [] m = []
  keep_projects (project ∷ projects) m =
      let rest = keep_projects projects m in
      elim (lookup project m) [ none ↦ rest | some proj ↦ proj ∷ rest ]

  unfoldable pub list_of_projects : List String → Parameters → Query V → Result (List R)
  list_of_projects [] p q = ok []
  list_of_projects (project ∷ projects) p q = do
    list ← metadata_or_full_list (record p { project = project }) q
    rest ← list_of_projects projects p q
    ok (list ++ rest)

  unfoldable pub list_project_when_permission_is_activated :
      Parameters → String → List String → Query V → Result (List R)
  list_project_when_permission_is_activated p first rest q =
      if first == wildcard_project then metadata_or_full_list p q else do
        list ← metadata_or_full_list p q
        ok (keep_projects (first ∷ rest) (build_map_from_list list []))

  -- The list for the projects that the user can read.
  unfoldable pub list_for : Scope → Parameters → List String → Query V → Result (List R)
  unfolding is_wildcard
  list_for scope p [] q = ok []
  list_for scope p (first ∷ rest) q =
      if scope == project_scope
      then list_project_when_permission_is_activated p first rest q
      else if not (eqb (len p.project) 0)
      then metadata_or_full_list p q
      else if is_wildcard first rest
      then metadata_or_full_list p q
      else list_of_projects (first ∷ rest) p q

  module _ (authz : Authorization) (kind : String) where
    unfoldable pub list_when_permission_is_activated : Parameters → Query V → Result (List R)
    list_when_permission_is_activated p q = do
      scope ← get_scope kind
      _ ← check_permission_list authz p scope
      projects ← authz.get_user_projects read_action scope
      list_for scope p projects q

    unfoldable pub list : Parameters → Query V → Result (List R)
    list p q =
        if authz.is_enabled
        then list_when_permission_is_activated p q
        else metadata_or_full_list p q

    -- List of toolbox.go, with the result of ctx.Bind
    unfoldable pub list_request : Bool → Request → Result (Query V) → Result (List R)
    list_request sensitive r bound = do
      q ← or_bad_request bound
      list (extract_parameters r sensitive) q
