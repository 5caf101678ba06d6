-- ===== src/VariableOrder/Dependencies/Loaded.antt =====
-- The dependencies of each name after the three loops.
use perses.Prelude.{
  String, ◌≡◌, refl, Bool, true, not, List, [], ◌∷◌, ◌==◌, string_eq, contains, is_distinct,
  if◌then◌else◌, beq_refl, ◌&&◌, arith,
}
use perses.Prelude.GoMap.{GoMap, delete, lookup-insert, lookup-delete, is_map, is_map-insert}
use perses.VariableOrder.Graph.Building.{are_known, is_closed, depends}
use perses.VariableOrder.Dependencies.{
  Variable, Dependencies, is_variable, collect, set_some, load_var, load_vars, names_of,
}
use perses.VariableOrder.Dependencies.Loading.{
  contains-collect, is_distinct-collect, are_known-In, is_closed-delete, is_closed-insert,
  is_map-delete, depends-lookup,
}

-- The references of the last variable of `vs` with the name `n`, and `before` without one.
unfoldable pub last_used : List Variable → String → List String → List String
last_used [] n before = before
last_used (v ∷ vs) n before = last_used vs n (if v.name == n then v.used else before)

abbrev stored : String → List String → GoMap String (List String) → GoMap String (List String)
stored n ds m = set_some n ds (delete n m)

is_map-stored :
    (n : String) (ds : List String) (m : GoMap String (List String))
    → is_map m ≡ true
    → is_map (stored n ds m) ≡ true
unfolding set_some
is_map-stored n [] m h = is_map-delete n m h
is_map-stored n (d ∷ ds) m h = is_map-insert n (d ∷ ds) (delete n m) (is_map-delete n m h)

is_closed-stored :
    (ks : List String) (n : String) (ds : List String) (m : GoMap String (List String))
    → contains ks n ≡ true
    → are_known ks ds ≡ true
    → is_distinct ds ≡ true
    → is_closed ks m ≡ true
    → is_closed ks (stored n ds m) ≡ true
unfolding set_some
is_closed-stored ks n [] m a b c h = is_closed-delete ks n m h
is_closed-stored ks n (d ∷ ds) m a b c h =
    is_closed-insert ks n (d ∷ ds) (delete n m) a b c (is_closed-delete ks n m h)

depends-stored :
    (n : String) (ds : List String) (m : GoMap String (List String)) (j u : String)
    → is_map m ≡ true
    → depends (stored n ds m) j u ≡ (if n == j then contains ds u else depends m j u)
unfolding set_some contains
depends-stored n [] m j u h = ground (
  arith,
  depends-lookup m j u h,
  depends-lookup (delete n m) j u (is_map-delete n m h),
  lookup-delete n j m,
)
depends-stored n (d ∷ ds) m j u h = ground (
  arith,
  depends-lookup m j u h,
  depends-lookup (stored n (d ∷ ds) m) j u (is_map-stored n (d ∷ ds) m h),
  lookup-insert n j (d ∷ ds) (delete n m),
  lookup-delete n j m,
)

-- A map holds, for each name, those of its references that are `wanted`.
pub record IsLoaded (wanted : String → Bool) (refs : String → List String)
    (m : GoMap String (List String)) : Type 0 where
  pub keyed : is_map m ≡ true
  pub holds : (v u : String) → depends m v u ≡ (contains (refs v) u && wanted u)

stored-IsLoaded :
    (wanted : String → Bool) (refs : String → List String) (m : GoMap String (List String))
    (v : Variable)
    → IsLoaded wanted refs m
    → IsLoaded wanted
        (λ n. if v.name == n then v.used else refs n)
        (stored v.name (collect wanted v.used []) m)
unfolding contains
stored-IsLoaded wanted refs m v i = record {
  keyed = is_map-stored v.name (collect wanted v.used []) m i.keyed;
  holds = λ j u. ground (
    arith,
    depends-stored v.name (collect wanted v.used []) m j u i.keyed,
    contains-collect wanted v.used [] u,
    i.holds j u,
  );
}

-- What each load keeps, for the names `ks` of the graph.
pub record Loaded (ks : List String) (names : GoMap String Bool) (refs : String → List String)
    (d : Dependencies) : Type 0 where
  pub closed : is_closed ks d.defined ≡ true
  pub known : IsLoaded (is_variable names) refs d.defined
  pub unknown : IsLoaded (λ u. not (is_variable names u)) refs d.undefined

module _ (ks : List String) (names : GoMap String Bool)
    (same : (u : String) → contains ks u ≡ is_variable names u) where
  load_var-Loaded :
      (refs : String → List String) (d : Dependencies) (v : Variable)
      → contains ks v.name ≡ true
      → Loaded ks names refs d
      → Loaded ks names (λ n. if v.name == n then v.used else refs n) (load_var names v d)
  unfolding load_var contains is_distinct
  load_var-Loaded refs d v h i =
      let found = collect (is_variable names) v.used [] in
      record {
        closed =
            is_closed-stored ks v.name found d.defined h
              (are_known-In ks found
                (λ x e. ground (arith, contains-collect (is_variable names) v.used [] x, same x)))
              (is_distinct-collect (is_variable names) v.used [] refl) i.closed;
        known = stored-IsLoaded _ refs d.defined v i.known;
        unknown = stored-IsLoaded _ refs d.undefined v i.unknown;
      }

  pub load_vars-Loaded :
      (vs : List Variable) (refs : String → List String) (d : Dependencies)
      → ((u : String) → contains (names_of vs) u ≡ true → contains ks u ≡ true)
      → Loaded ks names refs d
      → Loaded ks names (λ n. last_used vs n (refs n)) (load_vars names vs d)
  unfolding load_vars last_used names_of contains
  load_vars-Loaded [] refs d h i = i
  load_vars-Loaded (v ∷ vs) refs d h i =
      load_vars-Loaded vs _ (load_var names v d) (λ u k. h u (ground arith))
        (load_var-Loaded refs d v (h v.name (ground (arith, beq_refl string_eq v.name))) i)
