-- ===== src/VariableOrder/Graph/Counters.antt =====
-- The counters of the nodes: how a step changes them, and the edges that they count.
use perses.Prelude.{
  ℕ, ◌+◌, ◌-◌, ◌<◌, String, ◌≡◌, refl, List, [], ◌∷◌, ◌==◌, string_eq, count, arith, if◌then◌else◌,
  In, count_pos-In, In-count_pos, subst, ◌⊎◌, inl, inr, Option-cases,
}
use perses.Prelude.GoMap.{lookup, lookup-insert}
use perses.VariableOrder.Graph.{
  Graph, u64, change, with_decrease, decrease, dependencies_of, children_of, ready, waiting,
}

wrap : (d : ℕ) → 0 < d → d < u64 → decrease d ≡ d - 1
unfolding decrease
wrap d p b = omega arith

pub dependencies_of-decrease :
    (g : Graph) (c v : String)
    → 0 < dependencies_of g c
    → dependencies_of g c < u64
    → dependencies_of (change c with_decrease g) v
      ≡ (if c == v then dependencies_of g v - 1 else dependencies_of g v)
unfolding dependencies_of change
dependencies_of-decrease g c v pos bound = elim (Option-cases (lookup c g)) [
  | inl e ↦ absurd (ground arith)
  | inr (n, e) ↦
      ground (
        arith,
        e,
        lookup-insert c v (with_decrease n) g,
        string_eq.beq_iff c v,
        wrap n.dependencies,
      )
]

pub children_of-decrease :
    (g : Graph) (c v : String) → children_of (change c with_decrease g) v ≡ children_of g v
unfolding children_of change
children_of-decrease g c v = elim (Option-cases (lookup c g)) [
  | inl e ↦ ground (arith, e)
  | inr (n, e) ↦ ground (arith, e, lookup-insert c v (with_decrease n) g, string_eq.beq_iff c v)
]

pos_cases : (a b : ℕ) → 0 < a + b → (0 < a) ⊎ (0 < b)
pos_cases a b h = omega arith

-- The edges that lead from the nodes `us` to `v`.
unfoldable pub incoming : Graph → List String → String → ℕ
incoming g [] v = 0
incoming g (u ∷ us) v = count v (children_of g u) + incoming g us v

pub incoming-parts :
    (g : Graph) (us : List String) (v : String)
    → incoming g us v ≡ incoming g (ready g us) v + incoming g (waiting g us) v
unfolding incoming ready waiting
incoming-parts g [] v = omega arith
incoming-parts g (u ∷ us) v = ground (arith, incoming-parts g us v)

pub incoming-same :
    (g h : Graph) (us : List String) (v : String)
    → ((u : String) → children_of h u ≡ children_of g u)
    → incoming h us v ≡ incoming g us v
unfolding incoming
incoming-same g h [] v same = refl
incoming-same g h (u ∷ us) v same = ground (arith, same u, incoming-same g h us v same)

-- A positive counter is due to an edge from one of the nodes.
pub incoming-pos :
    (g : Graph) (us : List String) (v : String)
    → 0 < incoming g us v
    → (u : String) × In u us × In v (children_of g u)
unfolding incoming
incoming-pos g [] v h = absurd (omega arith)
incoming-pos g (u ∷ us) v h = elim (pos_cases (count v (children_of g u)) (incoming g us v) h) [
  | inl k ↦ (u, inl refl, count_pos-In v (children_of g u) k)
  | inr k ↦ let (w, i, j) = incoming-pos g us v k in (w, inr i, j)
]

pub incoming-In :
    (g : Graph) (us : List String) (u v : String)
    → In u us
    → In v (children_of g u)
    → 0 < incoming g us v
unfolding incoming
incoming-In g [] u v i j = absurd i
incoming-In g (w ∷ us) u v (inl e) j =
    omega (arith, In-count_pos v (children_of g w) (subst (λ x. In v (children_of g x)) e j))
incoming-In g (w ∷ us) u v (inr i) j = omega (arith, incoming-In g us u v i j)
