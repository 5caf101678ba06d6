-- ===== src/VariableOrder/Dependencies/Whole.antt =====
-- The names of all the variables, their references, and what the check for undefined names says.
use perses.Prelude.{
  String, ◌≡◌, refl, sym, ◌∙◌, Bool, true, false, List, [], ◌∷◌, string_eq, contains, is_distinct,
  ◌&&◌, ◌||◌, arith, Bool-cases, inl, inr,
}
use perses.Prelude.GoMap.{GoMap, lookup}
use perses.Prelude.Result.{Error, ok, err, Result-cases}
use perses.VariableOrder.Graph.Building.{is_closed, depends}
use perses.VariableOrder.Dependencies.{
  Variable, add_names, variable_names, is_variable, load_all, check_used, check_undefined,
  is_builtin_variable, names_of, append_names, variable_name_list,
}
use perses.VariableOrder.Dependencies.Loading.{contains-append_names, is_variable-add_names}
use perses.VariableOrder.Dependencies.Loaded.{last_used, Loaded, load_vars-Loaded}

check_used-ok :
    (v : String) (used : List String) (u : String)
    → check_used v used ≡ ok tt
    → contains used u ≡ true
    → is_builtin_variable u ≡ true
unfolding check_used contains
check_used-ok v [] u h c = cc
check_used-ok v (x ∷ used) u h c = ground (arith, check_used-ok v used u, string_eq.beq_iff x u)

check_used-err :
    (v : String) (used : List String) (e : Error)
    → check_used v used ≡ err e
    → (u : String) × (contains used u ≡ true) × (is_builtin_variable u ≡ false)
unfolding check_used contains
check_used-err v [] e h = cc
check_used-err v (x ∷ used) e h = elim (Bool-cases (is_builtin_variable x)) [
  | inl b ↦ let (u, i, j) = check_used-err v used e (ground arith) in (u, ground arith, j)
  | inr b ↦ (x, ground (arith, string_eq.beq_iff x x), b)
]

pub check_undefined-ok :
    (m : GoMap String (List String)) (v u : String)
    → check_undefined m ≡ ok tt
    → depends m v u ≡ true
    → is_builtin_variable u ≡ true
unfolding check_undefined depends
check_undefined-ok [] v u h d = cc
check_undefined-ok ((w, used) ∷ m) v u h d =
    ground (arith, check_used-ok w used u, check_undefined-ok m v u)

pub check_undefined-err :
    (m : GoMap String (List String)) (e : Error)
    → check_undefined m ≡ err e
    → (v : String) × (u : String) × (depends m v u ≡ true) × (is_builtin_variable u ≡ false)
unfolding check_undefined depends
check_undefined-err [] e h = cc
check_undefined-err ((w, used) ∷ m) e h = elim (Result-cases (check_used w used)) [
  | inl (_, q) ↦
      let (v, u, d, b) = check_undefined-err m e (ground arith) in (v, u, ground arith, b)
  | inr (c, q) ↦
      let (u, i, b) = check_used-err w used c q in (w, u, ground (arith, string_eq.beq_iff w w), b)
]

module _ (variables projects globals : List Variable) where
  -- The references of the variable that has the name: of the dashboard, else of the project, else
  -- global; the last one of a list.
  unfoldable pub references : String → List String
  references n = last_used variables n (last_used projects n (last_used globals n []))

  unfoldable pub is_name : String → Bool
  is_name n =
      contains (names_of variables) n
      || contains (names_of projects) n
      || contains (names_of globals) n

  -- `v` refers to the variable `u`.
  abbrev pub Refers : String → String → Type 0
  Refers v u = (contains (references v) u && is_name u) ≡ true

  pub is_variable-names :
      (u : String) → is_variable (variable_names variables projects globals) u ≡ is_name u
  unfolding variable_names is_name
  is_variable-names u = ground (
    arith,
    is_variable-add_names variables (add_names projects (add_names globals [])) u,
    is_variable-add_names projects (add_names globals []) u,
    is_variable-add_names globals [] u,
    nothing u,
  )
    where
      nothing : (u : String) → is_variable [] u ≡ false
      nothing u = unfold is_variable lookup in refl

  pub contains-list :
      (u : String) → contains (variable_name_list variables projects globals) u ≡ is_name u
  unfolding variable_name_list is_name
  contains-list u = ground (
    arith,
    contains-append_names globals (append_names projects (names_of variables)) u,
    contains-append_names projects (names_of variables) u,
  )

  pub load_all-Loaded :
      Loaded
        (variable_name_list variables projects globals)
        (variable_names variables projects globals)
        references
        (load_all variables projects globals)
  unfolding load_all references is_name
  load_all-Loaded =
      let ks = variable_name_list variables projects globals in
      let names = variable_names variables projects globals in
      let same : (u : String) → contains ks u ≡ is_variable names u =
        λ u. contains-list u ∙ sym (is_variable-names u) in
      load_vars-Loaded ks names same variables _ _ (λ u h. ground (arith, contains-list u))
        (load_vars-Loaded ks names same projects _ _ (λ u h. ground (arith, contains-list u))
          (load_vars-Loaded ks names same globals (λ n. []) _
            (λ u h. ground (arith, contains-list u)) start))
    where
      start :
          Loaded
            (variable_name_list variables projects globals)
            (variable_names variables projects globals)
            (λ n. [])
            (record { defined = []; undefined = [] })
      start =
          unfold is_closed depends is_distinct contains in
          record {
            closed = refl;
            known = record { keyed = refl; holds = λ v u. refl };
            unknown = record { keyed = refl; holds = λ v u. refl };
          }
