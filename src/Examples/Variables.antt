-- ===== src/Examples/Variables.antt =====
-- Two variables of a dashboard, the first of which refers to the second.
use perses.Prelude.{
  ℕ, ◌<◌, String, ◌≡◌, refl, true, false, List, [], ◌∷◌, some, ◌==◌, string_eq, contains,
  if◌then◌else◌, arith, ◌||◌, is_distinct,
}
use perses.Prelude.GoMap.{GoMap, is_map, delete, lookup, insert}
use perses.Prelude.Result.{ok}
use perses.VariableOrder.Graph.{Graph, new_graph}
use perses.VariableOrder.Graph.Building.{number_of_edges, is_closed, are_known}
use perses.VariableOrder.Graph.Nodes.{IsNewGraph, new_graph-IsNewGraph}
use perses.VariableOrder.Dependencies.{
  Variable, load_all, load_vars, load_var, set_some, collect, is_variable, variable_names,
  add_names, names_of, build_variable_order, is_builtin_variable,
}
use perses.VariableOrder.Dependencies.Whole.{references, is_name, Refers}
use perses.VariableOrder.Dependencies.Loaded.{last_used}
use perses.VariableOrder.Dependencies.Answer.{Answers, IsAnswer, build_variable_order-Answers}
use perses.VariableOrder.Dependencies.Acyclic.{build_variable_order-acyclic}

abbrev two_variables : List Variable
two_variables = record { name = "a"; used = "b" ∷ [] } ∷ record { name = "b"; used = [] } ∷ []

edges : number_of_edges (load_all two_variables [] []).defined ≡ 1
unfolding number_of_edges load_all load_vars load_var set_some collect delete is_variable lookup
    variable_names add_names insert contains
edges = refl

build_variable_order-Answers_example :
    Answers two_variables [] [] (build_variable_order two_variables [] [])
build_variable_order-Answers_example =
    build_variable_order-Answers two_variables [] [] (omega (arith, edges))

abbrev level : String → ℕ
level n = if n == "b" then 0 else 1

used_by :
    (v : String)
    → references two_variables [] [] v
      ≡ (if "b" == v then [] else if "a" == v then "b" ∷ [] else [])
unfolding references last_used
used_by v = refl

named : (u : String) → is_name two_variables [] [] u ≡ ("a" == u || "b" == u)
unfolding is_name names_of contains
named u = ground arith

drops : (v u : String) → Refers two_variables [] [] v u → level u < level v
unfolding contains
drops v u h = ground (
  arith,
  used_by v,
  string_eq.beq_iff "a" v,
  string_eq.beq_iff "b" v,
  string_eq.beq_iff "b" u,
  string_eq.beq_iff v "b",
  string_eq.beq_iff u "b",
)

defined :
    (n u : String)
    → contains (references two_variables [] [] n) u ≡ true
    → is_name two_variables [] [] u ≡ false
    → is_builtin_variable u ≡ true
unfolding contains
defined n u h k = ground (arith, used_by n, named u)

build_variable_order-acyclic_example :
    (groups : List (List String)) × (build_variable_order two_variables [] [] ≡ some (ok groups))
    × IsAnswer two_variables [] [] groups
build_variable_order-acyclic_example =
    build_variable_order-acyclic two_variables [] [] level drops defined (omega (arith, edges))

abbrev two_names : List String
two_names = "a" ∷ "b" ∷ []

abbrev one_edge : GoMap String (List String)
one_edge = ("a", "b" ∷ []) ∷ []

one_edge-is_closed : is_closed two_names one_edge ≡ true
unfolding is_closed are_known is_distinct contains
one_edge-is_closed = refl

one_edge-is_map : is_map one_edge ≡ true
unfolding is_distinct contains
one_edge-is_map = refl

one_edge-number : number_of_edges one_edge ≡ 1
unfolding number_of_edges
one_edge-number = refl

new_graph-IsNewGraph_example :
    (g : Graph) × (new_graph two_names one_edge ≡ some g) × IsNewGraph two_names one_edge g
new_graph-IsNewGraph_example =
    new_graph-IsNewGraph two_names one_edge one_edge-is_closed one_edge-is_map
      (omega (arith, one_edge-number))
