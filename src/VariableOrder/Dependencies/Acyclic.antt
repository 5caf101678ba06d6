-- ===== src/VariableOrder/Dependencies/Acyclic.antt =====
-- Variables without a cycle and without undefined references always get an order.
use perses.Prelude.{
  ℕ, zero, suc, ◌<◌, String, ◌≡◌, true, false, List, some, contains, string_eq, In, inl, inr, arith,
}
use perses.Prelude.Result.{ok}
use perses.VariableOrder.Graph.{u64}
use perses.VariableOrder.Graph.Building.{number_of_edges}
use perses.VariableOrder.Graph.Order.{IsStuck}
use perses.VariableOrder.Dependencies.{
  Variable, load_all, is_builtin_variable, build_variable_order,
}
use perses.VariableOrder.Dependencies.Whole.{references, is_name, Refers}
use perses.VariableOrder.Dependencies.Answer.{
  Answers, IsAnswer, IsFault, build_variable_order-Answers,
}

descent :
    (D : String → String → Type 0) (rank : String → ℕ) (l : List String)
    → ((v u : String) → D v u → rank u < rank v)
    → ((v : String) → In v l → (u : String) × In u l × D v u)
    → (k : ℕ) (v : String) → In v l
    → rank v < k
    → ⊥
descent D rank l less next zero v i h = omega arith
descent D rank l less next (suc k) v i h =
    let (u, j, d) = next v i in descent D rank l less next k u j (omega (arith, less v u d))

not-IsStuck :
    (D : String → String → Type 0) (rank : String → ℕ) (l : List String)
    → ((v u : String) → D v u → rank u < rank v)
    → ¬ IsStuck D l
not-IsStuck D rank l less ((v, i), next) =
    descent D rank l less next (suc (rank v)) v i (omega arith)

module _ (variables projects globals : List Variable) where
  not-IsFault :
      (rank : String → ℕ)
      → ((v u : String) → Refers variables projects globals v u → rank u < rank v)
      → ((n u : String)
          → contains (references variables projects globals n) u ≡ true
          → is_name variables projects globals u ≡ false
          → is_builtin_variable u ≡ true)
      → ¬ IsFault variables projects globals
  unfolding IsFault
  not-IsFault rank less known (inl (l, s)) = not-IsStuck _ rank l less s
  not-IsFault rank less known (inr (n, u, c, f, b)) = ground (arith, known n u c f)

  -- When a rank drops along each reference to a variable and every other reference is to a builtin
  -- variable, BuildVariableOrder returns groups, for fewer than 2 ^ 64 dependencies: each variable
  -- stands in them once, after all that it refers to.
  pub build_variable_order-acyclic :
      (rank : String → ℕ)
      → ((v u : String) → Refers variables projects globals v u → rank u < rank v)
      → ((n u : String)
          → contains (references variables projects globals n) u ≡ true
          → is_name variables projects globals u ≡ false
          → is_builtin_variable u ≡ true)
      → number_of_edges (load_all variables projects globals).defined < u64
      → (groups : List (List String)) × (build_variable_order variables projects globals
          ≡ some (ok groups))
        × IsAnswer variables projects globals groups
  unfolding Answers
  build_variable_order-acyclic rank less known room =
      elim (build_variable_order-Answers variables projects globals room) [
        | inl answer ↦ answer
        | inr (e, q, fault) ↦ absurd (not-IsFault rank less known fault)
      ]
