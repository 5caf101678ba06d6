-- ===== src/VariableOrder/Graph.antt =====
-- The dependency graph and its order in groups. A node stands in the map of the graph under its
-- name; a pointer to it is that name. `children` keeps the keys of a node's map of children.
-- `dependencies` is an unsigned 64-bit counter. A call through a nil pointer is `none`.
pub mod Counters
pub mod Release
pub mod Order
pub mod Edges
pub mod Building
pub mod Nodes
use mathlib.Core.Option
use perses.Prelude.{
  ℕ, zero, suc, ◌+◌, ◌-◌, ◌%◌, ◌^◌, String, Bool, true, false, List, [], ◌∷◌, ◌++◌, Option, none,
  some, string_eq, eqb, contains, length, if◌then◌else◌,
}
use perses.Prelude.GoMap.{GoMap, lookup, insert, keys}
use perses.Prelude.Result.{Result, ok, err, errorf}

pub record Node : Type 0 where
  pub children : List String
  pub dependencies : ℕ

abbrev pub Graph : Type 0
Graph = GoMap String Node

abbrev pub u64 : ℕ
u64 = 2 ^ 64

-- n.children[name] = node
unfoldable pub add_key : String → List String → List String
add_key name children = if contains children name then children else children ++ name ∷ []

-- node.dependencies++ and node.dependencies--
unfoldable pub increase : ℕ → ℕ
increase d = (d + 1) % u64

unfoldable pub decrease : ℕ → ℕ
decrease d = (d + u64 - 1) % u64

unfoldable pub change : String → (Node → Node) → Graph → Graph
change name f g = elim (lookup name g) [ none ↦ g | some n ↦ insert name (f n) g ]

unfoldable pub has_node : Graph → String → Bool
has_node g name = elim (lookup name g) [ none ↦ false | some _ ↦ true ]

abbrev pub with_child : String → Node → Node
with_child name n = record n { children = add_key name n.children }

abbrev pub with_increase : Node → Node
with_increase n = record n { dependencies = increase n.dependencies }

abbrev pub with_decrease : Node → Node
with_decrease n = record n { dependencies = decrease n.dependencies }

-- g.nodes[startName].addChild(g.nodes[endName])
unfoldable pub add_edge : String → String → Graph → Option Graph
add_edge start_name end_name g =
    if has_node g start_name
    then if has_node g end_name
      then some (change end_name with_increase (change start_name (with_child end_name) g))
      else none
    else none

-- the inner loop over the dependencies of one variable
unfoldable pub add_edges : List String → String → Graph → Option Graph
add_edges [] variable_name g = some g
add_edges (dep ∷ deps) variable_name g =
    Option.bind (add_edge dep variable_name g) (add_edges deps variable_name)

unfoldable pub add_dependencies : GoMap String (List String) → Graph → Option Graph
add_dependencies [] g = some g
add_dependencies ((variable_name, deps) ∷ rest) g =
    Option.bind (add_edges deps variable_name g) (add_dependencies rest)

unfoldable pub add_nodes : List String → Graph → Graph
add_nodes [] g = g
add_nodes (name ∷ names) g =
    add_nodes names (insert name (record { children = []; dependencies = 0 }) g)

unfoldable pub new_graph : List String → GoMap String (List String) → Option Graph
new_graph variable_name_list dependencies =
    add_dependencies dependencies (add_nodes variable_name_list [])

unfoldable pub dependencies_of : Graph → String → ℕ
dependencies_of g name = elim (lookup name g) [ none ↦ 0 | some n ↦ n.dependencies ]

unfoldable pub children_of : Graph → String → List String
children_of g name = elim (lookup name g) [ none ↦ [] | some n ↦ n.children ]

-- The loop over the remaining nodes: those that can be built now, and those that wait.
unfoldable pub ready : Graph → List String → List String
ready g [] = []
ready g (n ∷ remaining) =
    let rest = ready g remaining in if eqb (dependencies_of g n) 0 then n ∷ rest else rest

unfoldable pub waiting : Graph → List String → List String
waiting g [] = []
waiting g (n ∷ remaining) =
    let rest = waiting g remaining in if eqb (dependencies_of g n) 0 then rest else n ∷ rest

-- child.dependencies-- for the children of one node, and of each node of a group
unfoldable pub release_children : List String → Graph → Graph
release_children [] g = g
release_children (child ∷ rest) g = release_children rest (change child with_decrease g)

unfoldable pub release : List String → Graph → Graph
release [] g = g
release (v ∷ group) g = release group (release_children (children_of g v) g)

abbrev pub add_group : List String → Result (List (List String)) → Result (List (List String))
add_group group (ok groups) = ok (group ∷ groups)
add_group group (err e) = err e

-- The loop with fuel; `none` means that the fuel ran out.
unfoldable pub order_loop : ℕ → List String → Graph → Option (Result (List (List String)))
order_loop fuel [] g = some (ok [])
order_loop zero (n ∷ remaining) g = none
order_loop (suc fuel) (n ∷ remaining) g =
    let group = ready g (n ∷ remaining) in
    let later = order_loop fuel (waiting g (n ∷ remaining)) (release group g) in
    if eqb (length group) 0
    then some (err (errorf "circular dependency detected"))
    else Option.map (add_group group) later

-- Each round builds a node at least, so the number of nodes is fuel enough.
unfoldable pub build_order : Graph → Option (Result (List (List String)))
build_order g = order_loop (length (keys g)) (keys g) g
