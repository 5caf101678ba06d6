-- ===== src/VariableOrder/Graph/Edges.antt =====
-- One edge more: what it changes, and that the counters stay exact.
use perses.Prelude.{
  ◌+◌, String, ◌≡◌, refl, ◌∙◌, ap, true, false, [], ◌∷◌, some, ◌==◌, string_eq, contains,
  contains-append, count, count-append, arith, ◌&&◌, ◌||◌, if◌then◌else◌, Option-cases, inl, inr,
}
use perses.Prelude.GoMap.{lookup, lookup-insert, keys, keys-insert, contains-keys}
use perses.VariableOrder.Graph.{
  Graph, Node, change, with_child, with_increase, add_key, increase, dependencies_of, children_of,
  add_edge, has_node,
}

has_node-keys : (g : Graph) (n : String) → has_node g n ≡ contains (keys g) n
unfolding has_node
has_node-keys g n = ground (arith, contains-keys n g)

keys-change : (g : Graph) (n : String) (f : Node → Node) → keys (change n f g) ≡ keys g
unfolding change
keys-change g n f = elim (Option-cases (lookup n g)) [
  | inl e ↦ rw (e, change)
  | inr (m, e) ↦ rw (e, change) (ground (arith, keys-insert n (f m) g, contains-keys n g, e))
]

children_of-change :
    (g : Graph) (n : String) (f : Node → Node) (u : String)
    → ((m : Node) → (f m).children ≡ m.children)
    → children_of (change n f g) u ≡ children_of g u
unfolding children_of change
children_of-change g n f u same = elim (Option-cases (lookup n g)) [
  | inl e ↦ ground (arith, e)
  | inr (m, e) ↦ ground (arith, e, lookup-insert n u (f m) g, string_eq.beq_iff n u, same m)
]

dependencies_of-change :
    (g : Graph) (n : String) (f : Node → Node) (u : String)
    → ((m : Node) → (f m).dependencies ≡ m.dependencies)
    → dependencies_of (change n f g) u ≡ dependencies_of g u
unfolding dependencies_of change
dependencies_of-change g n f u same = elim (Option-cases (lookup n g)) [
  | inl e ↦ ground (arith, e)
  | inr (m, e) ↦ ground (arith, e, lookup-insert n u (f m) g, string_eq.beq_iff n u, same m)
]

children_of-with_child :
    (g : Graph) (n c u : String)
    → has_node g n ≡ true
    → children_of (change n (with_child c) g) u
      ≡ (if n == u then add_key c (children_of g u) else children_of g u)
unfolding children_of change has_node
children_of-with_child g n c u h = elim (Option-cases (lookup n g)) [
  | inl e ↦ ground (arith, e)
  | inr (m, e) ↦ ground (arith, e, lookup-insert n u (with_child c m) g, string_eq.beq_iff n u)
]

dependencies_of-with_increase :
    (g : Graph) (n u : String)
    → has_node g n ≡ true
    → dependencies_of (change n with_increase g) u
      ≡ (if n == u then increase (dependencies_of g u) else dependencies_of g u)
unfolding dependencies_of change has_node
dependencies_of-with_increase g n u h = elim (Option-cases (lookup n g)) [
  | inl e ↦ ground (arith, e)
  | inr (m, e) ↦ ground (arith, e, lookup-insert n u (with_increase m) g, string_eq.beq_iff n u)
]

-- the graph with one more edge, from `s` to `t`
pub joined : Graph → String → String → Graph
joined g s t = change t with_increase (change s (with_child t) g)

pub add_edge-joined :
    (g : Graph) (s t : String)
    → contains (keys g) s ≡ true
    → contains (keys g) t ≡ true
    → add_edge s t g ≡ some (joined g s t)
unfolding add_edge joined
add_edge-joined g s t hs ht = ground (arith, has_node-keys g s, has_node-keys g t)

module _ (g : Graph) (s t : String) where
  pub keys-joined : keys (joined g s t) ≡ keys g
  unfolding joined
  keys-joined =
      keys-change (change s (with_child t) g) t with_increase ∙ keys-change g s (with_child t)

module _ (g : Graph) (s t : String) (hs : contains (keys g) s ≡ true)
    (ht : contains (keys g) t ≡ true) where
  pub children_of-joined :
      (u : String)
      → children_of (joined g s t) u
        ≡ (if s == u then add_key t (children_of g u) else children_of g u)
  unfolding joined
  children_of-joined u =
      children_of-change (change s (with_child t) g) t with_increase u (λ m. refl)
      ∙ children_of-with_child g s t u (has_node-keys g s ∙ hs)

  pub dependencies_of-joined :
      (u : String)
      → dependencies_of (joined g s t) u
        ≡ (if t == u then increase (dependencies_of g u) else dependencies_of g u)
  unfolding joined
  dependencies_of-joined u =
      let h = change s (with_child t) g in
      ground (
        arith,
        dependencies_of-with_increase h t u
            (has_node-keys h t ∙ (ap (λ ks. contains ks t) (keys-change g s (with_child t)) ∙ ht)),
        dependencies_of-change g s (with_child t) u (λ m. refl),
      )

  -- Membership among the children, after the edge.
  pub contains-children_of-joined :
      (u v : String)
      → contains (children_of (joined g s t) u) v
        ≡ (contains (children_of g u) v || (s == u && t == v))
  unfolding add_key contains
  contains-children_of-joined u v = ground (
    arith,
    children_of-joined u,
    contains-append v (children_of g u) (t ∷ []),
    string_eq.beq_iff s u,
    string_eq.beq_iff t v,
  )

  module _ (fresh : contains (children_of g s) t ≡ false) where
    pub count-children_of-joined :
        (u v : String)
        → count v (children_of (joined g s t) u)
          ≡ count v (children_of g u) + (if s == u && t == v then 1 else 0)
    unfolding add_key count
    count-children_of-joined u v = ground (
      arith,
      children_of-joined u,
      count-append v (children_of g u) (t ∷ []),
      string_eq.beq_iff s u,
      string_eq.beq_iff t v,
    )
