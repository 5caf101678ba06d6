-- ===== src/VariableOrder/Dependencies.antt =====
-- The dependencies of the variables of a dashboard: `buildVariableDependencies` and `buildGraph`,
-- and the whole of `BuildVariableOrder`. A variable is given by its name and by the references to
-- variables that the scan of its spec found.
use perses.Prelude.{
  ℕ, String, Bool, true, false, not, List, [], ◌∷◌, ◌++◌, Option, none, some, ◌==◌, string_eq,
  contains, if◌then◌else◌, map, ◌&&◌, ◌||◌, ◌+◌, eqb,
}
use perses.Prelude.GoMap.{GoMap, insert, delete, keys, lookup}
use perses.Prelude.Result.{Result, ok, err, errorf, Error, ◌>>◌}
use perses.VariableOrder.Graph.{Graph, new_graph, build_order}
pub mod Loading
pub mod Loaded
pub mod Whole
pub mod Answer
pub mod Acyclic
use mathlib.Core.Option
use Prim.Native.Char.{code}

-- A variable, with the names that its text or plugin spec refers to, match[1] of each match.
pub record Variable : Type 0 where
  pub name : String
  pub used : List String

-- variableNames[name] = true for each variable
unfoldable pub add_names : List Variable → GoMap String Bool → GoMap String Bool
add_names [] names = names
add_names (v ∷ vs) names = add_names vs (insert v.name true names)

unfoldable pub variable_names : List Variable → List Variable → List Variable → GoMap String Bool
variable_names variables projects globals =
    add_names variables (add_names projects (add_names globals []))

unfoldable pub is_variable : GoMap String Bool → String → Bool
is_variable names used = elim (lookup used names) [ none ↦ false | some _ ↦ true ]

-- if !slices.Contains(names, name) { names = append(names, name) }
abbrev pub append_new : List String → String → List String
append_new names name = if contains names name then names else names ++ name ∷ []

-- The loop over the matches of one variable, for the defined and for the undefined names.
unfoldable pub collect : (String → Bool) → List String → List String → List String
collect wanted [] found = found
collect wanted (used ∷ rest) found =
    collect wanted rest (if wanted used then append_new found used else found)

pub record Dependencies : Type 0 where
  pub defined : GoMap String (List String)
  pub undefined : GoMap String (List String)

-- if len(deps) > 0 { m[name] = deps }
unfoldable pub set_some :
    String → List String → GoMap String (List String) → GoMap String (List String)
set_some name [] m = m
set_some name (d ∷ ds) m = insert name (d ∷ ds) m

-- The closure loadVar.
unfoldable pub load_var : GoMap String Bool → Variable → Dependencies → Dependencies
load_var names v deps = record {
  defined = set_some v.name (collect (is_variable names) v.used []) (delete v.name deps.defined);
  undefined =
      set_some v.name (collect (λ used. not (is_variable names used)) v.used [])
        (delete v.name deps.undefined);
}

unfoldable pub load_vars : GoMap String Bool → List Variable → Dependencies → Dependencies
load_vars names [] deps = deps
load_vars names (v ∷ vs) deps = load_vars names vs (load_var names v deps)

-- The regular expression ^__
unfoldable pub is_builtin_variable : String → Bool
is_builtin_variable (String.◌∷◌ c (String.◌∷◌ d s)) = eqb (code c) b'_' && eqb (code d) b'_'
is_builtin_variable s = false

-- The first name of a list that is not defined, if it is not a builtin variable.
unfoldable pub check_used : String → List String → Result (Unit {0})
check_used by_var [] = ok tt
check_used by_var (used ∷ rest) =
    let later = check_used by_var rest in
    if is_builtin_variable used
    then later
    else err (errorf "variable is used in the variable but not defined")

unfoldable pub check_undefined : GoMap String (List String) → Result (Unit {0})
check_undefined [] = ok tt
check_undefined ((by_var, used) ∷ rest) = check_used by_var used >> check_undefined rest

module _ (variables projects globals : List Variable) where
  -- the dependencies before the check for undefined names
  unfoldable pub load_all : Dependencies
  load_all =
      let names = variable_names variables projects globals in
      load_vars names variables (
        load_vars names projects
          (load_vars names globals (record { defined = []; undefined = [] })))

  unfoldable pub build_variable_dependencies : Result (GoMap String (List String))
  build_variable_dependencies = check_undefined load_all.undefined >> ok load_all.defined

unfoldable pub append_names : List Variable → List String → List String
append_names [] names = names
append_names (v ∷ vs) names = append_names vs (append_new names v.name)

unfoldable pub names_of : List Variable → List String
names_of [] = []
names_of (v ∷ vs) = v.name ∷ names_of vs

unfoldable pub variable_name_list : List Variable → List Variable → List Variable → List String
variable_name_list variables projects globals =
    append_names globals (append_names projects (names_of variables))

-- `none` is a call through a nil pointer.
unfoldable pub build_graph : List Variable → List Variable → List Variable → Option (Result Graph)
build_graph variables projects globals =
    elim (build_variable_dependencies variables projects globals) [
      | err e ↦ some (err e)
      | ok deps ↦ Option.map ok (new_graph (variable_name_list variables projects globals) deps)
    ]

unfoldable pub order_of : Result Graph → Option (Result (List (List String)))
order_of (err e) = some (err e)
order_of (ok g) = build_order g

unfoldable pub build_variable_order :
    List Variable → List Variable → List Variable → Option (Result (List (List String)))
build_variable_order variables projects globals =
    Option.bind (build_graph variables projects globals) order_of
