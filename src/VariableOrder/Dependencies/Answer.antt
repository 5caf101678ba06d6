-- ===== src/VariableOrder/Dependencies/Answer.antt =====
-- `BuildVariableOrder` as a whole: a valid order of all variables, a cycle, or a reference to an
-- undefined variable.
use mathlib.Core.Option
use perses.Prelude.{
  ◌<◌, String, ◌≡◌, sym, ◌∙◌, ap, subst, true, false, List, [], Option, some, string_eq, In,
  contains, In→contains, contains→In, count, count-is_distinct, if◌then◌else◌, ◌&&◌, arith, inl,
  inr, ◌⊎◌,
}
use perses.Prelude.GoMap.{GoMap, keys}
use perses.Prelude.Result.{Result, Error, ok, err, ◌>>◌, Result-cases}
use perses.VariableOrder.Graph.{Graph, u64, build_order, new_graph, children_of}
use perses.VariableOrder.Graph.Building.{depends, number_of_edges}
use perses.VariableOrder.Graph.Nodes.{IsNewGraph, new_graph-IsNewGraph}
use perses.VariableOrder.Graph.Order.{
  concat, IsOrdered, IsStuck, IsOrdered-weaken, IsStuck-map, Outcome, build_order-Outcome,
  DependsOn,
}
use perses.VariableOrder.Dependencies.{
  Variable, load_all, build_variable_dependencies, check_undefined, is_builtin_variable,
  variable_name_list, build_graph, build_variable_order, order_of,
}
use perses.VariableOrder.Dependencies.Whole.{
  references, is_name, Refers, load_all-Loaded, contains-list, is_variable-names,
  check_undefined-ok, check_undefined-err,
}

module _ (variables projects globals : List Variable) where
  -- The groups hold each variable once, each group after what it refers to, and every reference
  -- that is not to a variable is to a builtin one.
  unfoldable pub IsAnswer : List (List String) → Type 0
  IsAnswer groups =
      IsOrdered (Refers variables projects globals) [] groups
      × ((n : String)
          → count n (concat groups) ≡ (if is_name variables projects globals n then 1 else 0))
      × ((n u : String)
          → contains (references variables projects globals n) u ≡ true
          → is_name variables projects globals u ≡ false
          → is_builtin_variable u ≡ true)

  -- A cycle of references, or a reference to what is neither a variable nor builtin.
  unfoldable pub IsFault : Type 0
  IsFault =
      ((l : List String) × IsStuck (Refers variables projects globals) l)
      ⊎ ((n : String) × (u : String) × (contains (references variables projects globals n) u ≡ true)
          × (is_name variables projects globals u ≡ false)
          × (is_builtin_variable u ≡ false))

  unfoldable pub Answers : Option (Result (List (List String))) → Type 0
  Answers r =
      ((groups : List (List String)) × (r ≡ some (ok groups)) × IsAnswer groups)
      ⊎ ((e : Error) × (r ≡ some (err e)) × IsFault)

  -- a reference that the map of undefined names holds
  undefined-fault :
      (e : Error)
      → check_undefined (load_all variables projects globals).undefined ≡ err e
      → IsFault
  undefined-fault e h =
      let loaded = load_all-Loaded variables projects globals in
      let (v, u, d, b) = check_undefined-err (load_all variables projects globals).undefined e h in
      unfold IsFault in
      inr (
        v,
        u,
        ground (arith, loaded.unknown.holds v u),
        ground (arith, loaded.unknown.holds v u, is_variable-names variables projects globals u),
        b,
      )

  undefined-builtin :
      check_undefined (load_all variables projects globals).undefined ≡ ok tt
      → (n u : String) → contains (references variables projects globals n) u ≡ true
      → is_name variables projects globals u ≡ false
      → is_builtin_variable u ≡ true
  undefined-builtin h n u c f =
      let loaded = load_all-Loaded variables projects globals in
      check_undefined-ok (load_all variables projects globals).undefined n u h
        (ground (arith, loaded.unknown.holds n u, is_variable-names variables projects globals u))

  depends-Refers :
      (v u : String)
      → depends (load_all variables projects globals).defined v u ≡ (
          contains (references variables projects globals v) u
          && is_name variables projects globals u)
  depends-Refers v u =
      let loaded = load_all-Loaded variables projects globals in
      ground (arith, loaded.known.holds v u, is_variable-names variables projects globals u)

  module _ (g : Graph)
      (new : IsNewGraph
        (variable_name_list variables projects globals)
        (load_all variables projects globals).defined
        g) where
    DependsOn-Refers : (v u : String) → DependsOn g v u → Refers variables projects globals v u
    DependsOn-Refers v u d =
        sym (depends-Refers v u) ∙ (sym (new.edges u v) ∙ In→contains v (children_of g u) d)

    Refers-DependsOn : (v u : String) → Refers variables projects globals v u → DependsOn g v u
    Refers-DependsOn v u r =
        contains→In v (children_of g u) (new.edges u v ∙ (depends-Refers v u ∙ r))

    is_node : (u : String) → contains (keys g) u ≡ is_name variables projects globals u
    is_node u = new.nodes u ∙ contains-list variables projects globals u

    known_node : (v u : String) → DependsOn g v u → In u (keys g)
    known_node v u d = contains→In u (keys g) (ground (arith, is_node u, DependsOn-Refers v u d))

    graph_answer :
        check_undefined (load_all variables projects globals).undefined ≡ ok tt
        → (r : Option (Result (List (List String)))) → Outcome g [] (keys g) r
        → Answers r
    unfolding Outcome Answers
    graph_answer h r (inl (groups, e, ordered, same)) = inl (
      groups,
      e,
      unfold IsAnswer in
          (
            IsOrdered-weaken (DependsOn g) (Refers variables projects globals) [] groups
                Refers-DependsOn ordered,
            λ n. ground (arith, same n, count-is_distinct n (keys g) new.distinct, is_node n),
            undefined-builtin h,
          ),
    )
    graph_answer h r (inr (c, e, (l, s))) = inr (
      c,
      e,
      unfold IsFault in
          inl
            (l, IsStuck-map (DependsOn g) (Refers variables projects globals) l DependsOn-Refers s),
    )

  dependencies_of_check :
      (c : Result (Unit {0}))
      → check_undefined (load_all variables projects globals).undefined ≡ c
      → build_variable_dependencies variables projects globals
        ≡ (c >> ok (load_all variables projects globals).defined)
  unfolding build_variable_dependencies
  dependencies_of_check c h = ap (λ x. x >> ok (load_all variables projects globals).defined) h

  order-err :
      (e : Error)
      → build_variable_dependencies variables projects globals ≡ err e
      → build_variable_order variables projects globals ≡ some (err e)
  unfolding build_variable_order build_graph order_of Option.bind
  order-err e h = ground (arith, h)

  order-ok :
      (deps : GoMap String (List String)) (g : Graph)
      → build_variable_dependencies variables projects globals ≡ ok deps
      → new_graph (variable_name_list variables projects globals) deps ≡ some g
      → build_variable_order variables projects globals ≡ build_order g
  unfolding build_variable_order build_graph order_of Option.bind
  order-ok deps g h k = ground (arith, h, k)

  -- BuildVariableOrder never fails on a nil pointer and its loop ends, for fewer than 2 ^ 64
  -- dependencies: it returns groups that hold each variable once, each after the variables it
  -- refers to, and then all undefined references are to builtin variables; or an error, and then
  -- the references have a cycle or one is neither a variable nor builtin.
  pub build_variable_order-Answers :
      number_of_edges (load_all variables projects globals).defined < u64
      → Answers (build_variable_order variables projects globals)
  build_variable_order-Answers room =
      let loaded = load_all-Loaded variables projects globals in
      elim (Result-cases (check_undefined (load_all variables projects globals).undefined)) [
        | inl (_, q) ↦
            let (g, e, new) =
              new_graph-IsNewGraph (variable_name_list variables projects globals)
                (load_all variables projects globals).defined loaded.closed loaded.known.keyed
                room in
            subst Answers (sym (order-ok _ g (dependencies_of_check (ok tt) q) e)) (
              graph_answer g new q (build_order g)
                (build_order-Outcome g new.inv (known_node g new)))
        | inr (e, q) ↦
            unfold Answers in
            inr (e, order-err e (dependencies_of_check (err e) q), undefined-fault e q)
      ]
