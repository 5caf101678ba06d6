-- ===== src/VariableOrder/Graph/Nodes.antt =====
-- The whole of `newGraph`: its nodes, then its edges. It never dereferences a missing node when
-- the dependencies are names of the list.
use perses.Prelude.{
  ◌<◌, String, ◌≡◌, refl, ◌∙◌, sym, ap, Bool, true, false, List, [], ◌∷◌, some, ◌==◌, string_eq,
  contains, count, is_distinct, arith, ◌||◌,
}
use perses.Prelude.GoMap.{
  GoMap, keys, is_map, lookup, insert, contains-keys-insert, is_map-insert, lookup-insert,
}
use perses.VariableOrder.Graph.{
  Graph, Node, u64, children_of, dependencies_of, add_nodes, new_graph,
}
use perses.VariableOrder.Graph.Counters.{incoming}
use perses.VariableOrder.Graph.Order.{Inv}
use perses.VariableOrder.Graph.Building.{
  IsGraph, are_known, is_closed, depends, number_of_edges, add_dependencies-IsGraph,
}

-- A graph without edges whose nodes are `names`.
record IsEdgeless (names : String → Bool) (g : Graph) : Type 0 where
  distinct : is_map g ≡ true
  nodes : (v : String) → contains (keys g) v ≡ names v
  unused : (v : String) → dependencies_of g v ≡ 0
  childless : (u : String) → children_of g u ≡ []

empty-IsEdgeless : IsEdgeless (λ v. false) []
unfolding dependencies_of children_of is_distinct contains lookup
empty-IsEdgeless = record {
  distinct = refl;
  nodes = λ v. refl;
  unused = λ v. refl;
  childless = λ u. refl;
}

insert-IsEdgeless :
    (names : String → Bool) (n : String) (g : Graph)
    → IsEdgeless names g
    → IsEdgeless (λ v. n == v || names v) (insert n (record { children = []; dependencies = 0 }) g)
unfolding dependencies_of children_of
insert-IsEdgeless names n g i =
    let new : Node = record { children = []; dependencies = 0 } in
    record {
      distinct = is_map-insert n new g i.distinct;
      nodes = λ v. ground (arith, contains-keys-insert n v new g, i.nodes v);
      unused = λ v. ground (arith, lookup-insert n v new g, i.unused v);
      childless = λ v. ground (arith, lookup-insert n v new g, i.childless v);
    }

add_nodes-IsEdgeless :
    (names : List String) (before : String → Bool) (g : Graph)
    → IsEdgeless before g
    → IsEdgeless (λ v. contains names v || before v) (add_nodes names g)
unfolding add_nodes contains
add_nodes-IsEdgeless [] before g i = i
add_nodes-IsEdgeless (n ∷ names) before g i =
    let h = add_nodes-IsEdgeless names _ _ (insert-IsEdgeless before n g i) in
    record {
      distinct = h.distinct;
      nodes = λ v. ground (arith, h.nodes v);
      unused = h.unused;
      childless = h.childless;
    }

incoming-childless :
    (g : Graph) (us : List String) (v : String)
    → ((u : String) → children_of g u ≡ [])
    → incoming g us v ≡ 0
unfolding incoming count
incoming-childless g [] v h = refl
incoming-childless g (u ∷ us) v h = ground (arith, h u, incoming-childless g us v h)

edgeless-IsGraph :
    (names : String → Bool) (g : Graph) → IsEdgeless names g → IsGraph (keys g) 0 (λ v u. false) g
unfolding contains
edgeless-IsGraph names g i = record {
  nodes = refl;
  exact = λ v. i.unused v ∙ sym (incoming-childless g (keys g) v i.childless);
  small = λ v. omega (arith, i.unused v);
  edges = λ u v. ap (λ cs. contains cs v) (i.childless u);
}

are_known-same :
    (ks names : List String) (ds : List String)
    → ((v : String) → contains ks v ≡ contains names v)
    → are_known names ds ≡ true
    → are_known ks ds ≡ true
unfolding are_known
are_known-same ks names [] same h = refl
are_known-same ks names (d ∷ ds) same h = ground (arith, same d, are_known-same ks names ds same)

is_closed-same :
    (ks names : List String) (deps : GoMap String (List String))
    → ((v : String) → contains ks v ≡ contains names v)
    → is_closed names deps ≡ true
    → is_closed ks deps ≡ true
unfolding is_closed
is_closed-same ks names [] same h = refl
is_closed-same ks names ((w, ds) ∷ rest) same h =
    ground (arith, same w, are_known-same ks names ds same, is_closed-same ks names rest same)

or_false : (b : Bool) → (b || false) ≡ b
or_false b = ground arith

-- What `newGraph` promises.
pub record IsNewGraph (names : List String) (deps : GoMap String (List String)) (g : Graph)
    : Type 0 where
  pub distinct : is_map g ≡ true
  pub nodes : (v : String) → contains (keys g) v ≡ contains names v
  pub inv : Inv g (keys g)
  pub edges : (u v : String) → contains (children_of g u) v ≡ depends deps v u

-- When variables and dependencies are names of the list, no dependency is listed twice and there are
-- fewer than 2 ^ 64 of them, newGraph dereferences no missing node; its graph has one node for each
-- name, an edge for each dependency and exact counters.
pub new_graph-IsNewGraph :
    (names : List String) (deps : GoMap String (List String))
    → is_closed names deps ≡ true
    → is_map deps ≡ true
    → number_of_edges deps < u64
    → (g : Graph) × (new_graph names deps ≡ some g) × IsNewGraph names deps g
unfolding new_graph
new_graph-IsNewGraph names deps closed m room =
    let g0 : Graph = add_nodes names [] in
    let i = add_nodes-IsEdgeless names (λ v. false) [] empty-IsEdgeless in
    let same = λ (v : String). i.nodes v ∙ or_false (contains names v) in
    let (g, e, j) =
      add_dependencies-IsGraph (keys g0) i.distinct deps 0 (λ v u. false) g0
        (edgeless-IsGraph _ g0 i) (omega arith) (is_closed-same (keys g0) names deps same closed) m
        (λ w u h. refl) in
    (
      g,
      e,
      record {
        distinct = ap (λ ks. is_distinct ks) j.nodes ∙ i.distinct;
        nodes = λ v. ap (λ ks. contains ks v) j.nodes ∙ same v;
        inv = record {
          bounded = λ v. omega (arith, j.small v);
          exact = λ v. j.exact v ∙ ap (λ ks. incoming g ks v) (sym j.nodes);
        };
        edges = j.edges;
      },
    )
