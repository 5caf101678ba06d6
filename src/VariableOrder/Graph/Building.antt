-- ===== src/VariableOrder/Graph/Building.antt =====
-- The graph that `newGraph` builds: one node for each name, one edge for each dependency, and
-- counters that are exact.
use mathlib.Core.Option
use perses.Prelude.{
  ℕ, ◌+◌, ◌<◌, ◌≤◌, String, ◌≡◌, refl, ◌∙◌, ap, Bool, true, false, List, [], ◌∷◌, some, ◌==◌,
  string_eq, beq_refl, contains, is_distinct, length, count, count-is_distinct, arith, ◌&&◌, ◌||◌,
  if◌then◌else◌,
}
use perses.Prelude.GoMap.{GoMap, keys, is_map}
use perses.VariableOrder.Graph.{
  Graph, u64, increase, children_of, dependencies_of, add_edges, add_dependencies,
}
use perses.VariableOrder.Graph.Counters.{incoming}
use perses.VariableOrder.Graph.Edges.{
  joined, add_edge-joined, keys-joined, dependencies_of-joined, contains-children_of-joined,
  count-children_of-joined,
}

-- A graph with the nodes `ks`, at most `k` edges into each, exact counters, and an edge from `u`
-- to `v` where `edge v u` says so.
pub record IsGraph (ks : List String) (k : ℕ) (edge : String → String → Bool) (g : Graph)
    : Type 0 where
  pub nodes : keys g ≡ ks
  pub exact : (v : String) → dependencies_of g v ≡ incoming g ks v
  pub small : (v : String) → dependencies_of g v ≤ k
  pub edges : (u v : String) → contains (children_of g u) v ≡ edge v u

unfoldable pub are_known : List String → List String → Bool
are_known ks [] = true
are_known ks (d ∷ ds) = contains ks d && are_known ks ds

-- The variable `v` depends on `u`.
unfoldable pub depends : GoMap String (List String) → String → String → Bool
depends [] v u = false
depends ((w, ds) ∷ rest) v u = (w == v && contains ds u) || depends rest v u

-- Variables and dependencies are names of nodes, and no dependency occurs twice.
unfoldable pub is_closed : List String → GoMap String (List String) → Bool
is_closed ks [] = true
is_closed ks ((w, ds) ∷ rest) =
    contains ks w && are_known ks ds && is_distinct ds && is_closed ks rest

unfoldable pub number_of_edges : GoMap String (List String) → ℕ
number_of_edges [] = 0
number_of_edges ((w, ds) ∷ rest) = length ds + number_of_edges rest

wrap : (d : ℕ) → d + 1 < u64 → increase d ≡ d + 1
unfolding increase
wrap d h = omega arith

module _ (g : Graph) (s t : String) (hs : contains (keys g) s ≡ true)
    (ht : contains (keys g) t ≡ true) (fresh : contains (children_of g s) t ≡ false) where
  incoming-joined :
      (us : List String) (v : String)
      → incoming (joined g s t) us v ≡ incoming g us v + (if t == v then count s us else 0)
  unfolding incoming count
  incoming-joined [] v = ground arith
  incoming-joined (u ∷ us) v = ground (
    arith,
    incoming-joined us v,
    count-children_of-joined g s t hs ht fresh u v,
    string_eq.beq_iff s u,
    string_eq.beq_iff u s,
  )

module _ (ks : List String) (distinct : is_distinct ks ≡ true) where
  -- One edge more.
  joined-IsGraph :
      (k : ℕ) (edge : String → String → Bool) (g : Graph) (s t : String)
      → IsGraph ks k edge g
      → k + 1 < u64
      → contains ks s ≡ true
      → contains ks t ≡ true
      → edge t s ≡ false
      → IsGraph ks (k + 1) (λ v u. edge v u || (s == u && t == v)) (joined g s t)
  joined-IsGraph k edge g s t i room hs ht new =
      let hs' = ap (λ l. contains l s) i.nodes ∙ hs in
      let ht' = ap (λ l. contains l t) i.nodes ∙ ht in
      let fresh = i.edges s t ∙ new in
      record {
        nodes = keys-joined g s t ∙ i.nodes;
        exact = λ v. ground (
          arith,
          i.exact v,
          i.small v,
          wrap (dependencies_of g v),
          dependencies_of-joined g s t hs' ht' v,
          incoming-joined g s t hs' ht' fresh ks v,
          count-is_distinct s ks distinct,
        );
        small = λ v.
            ground (
              arith,
              i.small v,
              wrap (dependencies_of g v),
              dependencies_of-joined g s t hs' ht' v,
            );
        edges = λ u v.
            contains-children_of-joined g s t hs' ht' u v
            ∙ ap (λ b. b || (s == u && t == v)) (i.edges u v);
      }

  weaken :
      (k l : ℕ) (edge edge' : String → String → Bool) (g : Graph)
      → k ≤ l
      → ((v u : String) → edge v u ≡ edge' v u)
      → IsGraph ks k edge g
      → IsGraph ks l edge' g
  weaken k l edge edge' g le same i = record {
    nodes = i.nodes;
    exact = i.exact;
    small = λ v. omega (arith, i.small v);
    edges = λ u v. i.edges u v ∙ same v u;
  }

  known_node :
      {k : ℕ} {edge : String → String → Bool} (g : Graph)
      → IsGraph ks k edge g
      → (n : String) → contains ks n ≡ true
      → contains (keys g) n ≡ true
  known_node g i n h = ap (λ l. contains l n) i.nodes ∙ h

  -- The edges of one variable.
  add_edges-IsGraph :
      (deps : List String) (w : String) (k : ℕ) (edge : String → String → Bool) (g : Graph)
      → IsGraph ks k edge g
      → k + length deps < u64
      → contains ks w ≡ true
      → are_known ks deps ≡ true
      → is_distinct deps ≡ true
      → ((u : String) → contains deps u ≡ true → edge w u ≡ false)
      → (g' : Graph) × (add_edges deps w g ≡ some g')
        × IsGraph ks (k + length deps) (λ v u. edge v u || (w == v && contains deps u)) g'
  unfolding add_edges are_known is_distinct contains Option.bind
  add_edges-IsGraph [] w k edge g i room hw known d new =
      (g, refl, weaken k (k + 0) edge _ g (omega arith) (λ v u. ground arith) i)
  add_edges-IsGraph (s ∷ ds) w k edge g i room hw known d new =
      let i1 =
        joined-IsGraph k edge g s w i (omega arith) (ground arith) hw
          (new s (ground (arith, beq_refl string_eq s))) in
      let (g2, e2, i2) =
        add_edges-IsGraph ds w (k + 1) (λ v u. edge v u || (s == u && w == v)) (joined g s w) i1
          (omega arith) hw (ground arith) (ground arith)
          (λ u h. ground (arith, new u, string_eq.beq_iff s u)) in
      (
        g2,
        ap (λ r. Option.bind r (add_edges ds w))
              (add_edge-joined g s w (known_node g i s (ground arith)) (known_node g i w hw))
            ∙ e2,
        weaken (k + 1 + length ds) _ _ _ g2 (omega arith) (λ v u. ground arith) i2,
      )

  pub add_dependencies-IsGraph :
      (deps : GoMap String (List String)) (k : ℕ) (edge : String → String → Bool) (g : Graph)
      → IsGraph ks k edge g
      → k + number_of_edges deps < u64
      → is_closed ks deps ≡ true
      → is_map deps ≡ true
      → ((w u : String) → contains (keys deps) w ≡ true → edge w u ≡ false)
      → (g' : Graph) × (add_dependencies deps g ≡ some g')
        × IsGraph ks (k + number_of_edges deps) (λ v u. edge v u || depends deps v u) g'
  unfolding add_dependencies number_of_edges is_closed is_distinct contains depends Option.bind
  add_dependencies-IsGraph [] k edge g i room c m new =
      (g, refl, weaken k (k + 0) edge _ g (omega arith) (λ v u. ground arith) i)
  add_dependencies-IsGraph ((w, ds) ∷ rest) k edge g i room c m new =
      let (g1, e1, i1) =
        add_edges-IsGraph ds w k edge g i (omega arith) (ground arith) (ground arith) (ground arith)
          (λ u h. new w u (ground (arith, beq_refl string_eq w))) in
      let (g2, e2, i2) =
        add_dependencies-IsGraph rest (k + length ds) (λ v u. edge v u || (w == v && contains ds u))
          g1 i1 (omega arith) (ground arith) (ground arith)
          (λ x u h. ground (arith, new x u, string_eq.beq_iff w x)) in
      (
        g2,
        ap (λ r. Option.bind r (add_dependencies rest)) e1 ∙ e2,
        weaken (k + length ds + number_of_edges rest) _ _ _ g2 (omega arith) (λ v u. ground arith)
            i2,
      )
