-- ===== src/VariableOrder/Graph/Release.antt =====
-- Releasing a group takes one from a counter for each edge that leads out of the group.
use perses.Prelude.{
  ◌+◌, ◌-◌, ◌≤◌, ◌<◌, String, ◌≡◌, refl, ◌∙◌, List, [], ◌∷◌, ◌==◌, string_eq, count, arith,
  if◌then◌else◌, beq_refl,
}
use perses.VariableOrder.Graph.{
  Graph, u64, change, with_decrease, dependencies_of, children_of, release_children, release,
}
use perses.VariableOrder.Graph.Counters.{
  dependencies_of-decrease, children_of-decrease, incoming, incoming-same,
}

abbrev pub IsBounded : Graph → Type 0
IsBounded g = (v : String) → dependencies_of g v < u64

count-cons :
    (v c : String) (cs : List String) → count v (c ∷ cs) ≡ (if c == v then 1 else 0) + count v cs
unfolding count
count-cons v c cs = refl

children_of-release_children :
    (cs : List String) (g : Graph) (u : String)
    → children_of (release_children cs g) u ≡ children_of g u
unfolding release_children
children_of-release_children [] g u = refl
children_of-release_children (c ∷ cs) g u =
    children_of-release_children cs (change c with_decrease g) u ∙ children_of-decrease g c u

module _ (c : String) (cs : List String) (g : Graph) (b : IsBounded g)
    (enough : (v : String) → count v (c ∷ cs) ≤ dependencies_of g v) where
  first-pos : 0 < dependencies_of g c
  first-pos = ground (arith, enough c, count-cons c c cs, beq_refl string_eq c)

  after_first :
      (v : String)
      → dependencies_of (change c with_decrease g) v
        ≡ (if c == v then dependencies_of g v - 1 else dependencies_of g v)
  after_first v = dependencies_of-decrease g c v first-pos (b c)

dependencies_of-release_children :
    (cs : List String) (g : Graph)
    → IsBounded g
    → ((v : String) → count v cs ≤ dependencies_of g v)
    → (v : String) → dependencies_of (release_children cs g) v ≡ dependencies_of g v - count v cs
unfolding release_children
dependencies_of-release_children [] g b enough v = unfold count in omega arith
dependencies_of-release_children (c ∷ cs) g b enough v =
    let h = change c with_decrease g in
    let after = after_first c cs g b enough in
    let rest =
      dependencies_of-release_children cs h (λ w. ground (arith, after w, b w))
        (λ w. ground (arith, after w, enough w, count-cons w c cs)) v in
    ground (arith, rest, after v, count-cons v c cs)

pub children_of-release :
    (us : List String) (g : Graph) (u : String) → children_of (release us g) u ≡ children_of g u
unfolding release
children_of-release [] g u = refl
children_of-release (w ∷ us) g u =
    children_of-release us (release_children (children_of g w) g) u
    ∙ children_of-release_children (children_of g w) g u

incoming-cons :
    (g : Graph) (u : String) (us : List String) (v : String)
    → incoming g (u ∷ us) v ≡ count v (children_of g u) + incoming g us v
unfolding incoming
incoming-cons g u us v = refl

pub dependencies_of-release :
    (us : List String) (g : Graph)
    → IsBounded g
    → ((v : String) → incoming g us v ≤ dependencies_of g v)
    → (v : String) → dependencies_of (release us g) v ≡ dependencies_of g v - incoming g us v
unfolding release
dependencies_of-release [] g b enough v = unfold incoming in omega arith
dependencies_of-release (u ∷ us) g b enough v =
    let cs = children_of g u in
    let h = release_children cs g in
    let after =
      dependencies_of-release_children cs g b
        (λ w. omega (arith, enough w, incoming-cons g u us w)) in
    let same = λ (w : String). incoming-same g h us w (children_of-release_children cs g) in
    let rest =
      dependencies_of-release us h (λ w. omega (arith, after w, b w))
        (λ w. omega (arith, after w, enough w, incoming-cons g u us w, same w)) v in
    omega (arith, rest, after v, incoming-cons g u us v, same v)
