-- ===== src/VariableOrder/Dependencies/Loading.antt =====
-- What the loading of the variables leaves: the dependencies of each name are the references of the
-- variable loaded last under it, those to names of variables apart from the others.
use perses.Prelude.{
  String, ◌≡◌, refl, Bool, true, false, List, [], ◌∷◌, none, some, ◌==◌, string_eq, contains,
  contains-append, is_distinct, is_distinct-snoc, beq_refl, ◌&&◌, ◌||◌, arith, Bool-cases,
}
use perses.Prelude.GoMap.{GoMap, insert, delete, keys, lookup, lookup-insert, is_map, lookup-none}
use perses.VariableOrder.Graph.Building.{are_known, is_closed, depends}
use perses.VariableOrder.Dependencies.{
  Variable, add_names, is_variable, append_new, collect, append_names, names_of,
}

contains-append_new :
    (names : List String) (n u : String)
    → contains (append_new names n) u ≡ (contains names u || n == u)
unfolding contains
contains-append_new names n u =
    ground (arith, contains-append u names (n ∷ []), string_eq.beq_iff n u)

is_distinct-append_new :
    (names : List String) (n : String)
    → is_distinct names ≡ true
    → is_distinct (append_new names n) ≡ true
is_distinct-append_new names n h = ground (arith, is_distinct-snoc n names)

pub contains-append_names :
    (vs : List Variable) (names : List String) (u : String)
    → contains (append_names vs names) u ≡ (contains names u || contains (names_of vs) u)
unfolding append_names names_of contains
contains-append_names [] names u = ground arith
contains-append_names (v ∷ vs) names u = ground (
  arith,
  contains-append_names vs (append_new names v.name) u,
  contains-append_new names v.name u,
)

pub is_variable-add_names :
    (vs : List Variable) (names : GoMap String Bool) (u : String)
    → is_variable (add_names vs names) u ≡ (contains (names_of vs) u || is_variable names u)
unfolding add_names names_of contains is_variable
is_variable-add_names [] names u = refl
is_variable-add_names (v ∷ vs) names u = ground (
  arith,
  is_variable-add_names vs (insert v.name true names) u,
  lookup-insert v.name u true names,
)

pub contains-collect :
    (wanted : String → Bool) (used found : List String) (u : String)
    → contains (collect wanted used found) u ≡ (contains found u || (wanted u && contains used u))
unfolding collect contains
contains-collect wanted [] found u = ground arith
contains-collect wanted (x ∷ used) found u = ground (
  arith,
  contains-collect wanted used found u,
  contains-collect wanted used (append_new found x) u,
  contains-append_new found x u,
  string_eq.beq_iff x u,
)

pub is_distinct-collect :
    (wanted : String → Bool) (used found : List String)
    → is_distinct found ≡ true
    → is_distinct (collect wanted used found) ≡ true
unfolding collect
is_distinct-collect wanted [] found h = h
is_distinct-collect wanted (x ∷ used) found h = ground (
  arith,
  is_distinct-collect wanted used found,
  is_distinct-collect wanted used (append_new found x),
  is_distinct-append_new found x,
)

pub are_known-In :
    (ks ds : List String)
    → ((d : String) → contains ds d ≡ true → contains ks d ≡ true)
    → are_known ks ds ≡ true
unfolding are_known contains
are_known-In ks [] h = refl
are_known-In ks (d ∷ ds) h =
    ground (arith, h d, are_known-In ks ds (λ x i. h x (ground arith)), beq_refl string_eq d)

pub is_closed-delete :
    (ks : List String) (k : String) (m : GoMap String (List String))
    → is_closed ks m ≡ true
    → is_closed ks (delete k m) ≡ true
unfolding is_closed delete
is_closed-delete ks k [] h = refl
is_closed-delete ks k ((w, ds) ∷ m) h = ground (arith, is_closed-delete ks k m)

pub is_closed-insert :
    (ks : List String) (k : String) (ds : List String) (m : GoMap String (List String))
    → contains ks k ≡ true
    → are_known ks ds ≡ true
    → is_distinct ds ≡ true
    → is_closed ks m ≡ true
    → is_closed ks (insert k ds m) ≡ true
unfolding is_closed insert
is_closed-insert ks k ds [] a b c h = ground arith
is_closed-insert ks k ds ((w, es) ∷ m) a b c h = ground (arith, is_closed-insert ks k ds m a b c)

contains-keys-delete :
    (k j : String) (m : GoMap String (List String))
    → contains (keys m) j ≡ false
    → contains (keys (delete k m)) j ≡ false
unfolding contains delete
contains-keys-delete k j [] h = refl
contains-keys-delete k j ((w, es) ∷ m) h = ground (arith, contains-keys-delete k j m)

pub is_map-delete :
    (k : String) (m : GoMap String (List String)) → is_map m ≡ true → is_map (delete k m) ≡ true
unfolding is_distinct delete
is_map-delete k [] h = refl
is_map-delete k ((w, es) ∷ m) h =
    ground (arith, is_map-delete k m, contains-keys-delete k w m, Bool-cases (contains (keys m) w))

-- The entries of one name.
pub depends-lookup :
    (m : GoMap String (List String)) (v u : String)
    → is_map m ≡ true
    → depends m v u ≡ elim (lookup v m) [ none ↦ false | some ds ↦ contains ds u ]
unfolding depends lookup is_distinct
depends-lookup [] v u h = refl
depends-lookup ((w, ds) ∷ m) v u h =
    ground (arith, depends-lookup m v u, lookup-none w m, string_eq.beq_iff w v)
