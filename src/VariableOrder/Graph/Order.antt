-- ===== src/VariableOrder/Graph/Order.antt =====
-- The order in groups: what `buildOrder` returns, and when it reports a cycle.
use mathlib.Core.Option
use perses.Prelude.{
  ℕ, zero, suc, ◌+◌, ◌≤◌, ◌<◌, String, ◌≡◌, refl, sym, ◌∙◌, subst, true, false, List, [], ◌∷◌, ◌++◌,
  Option, some, ◌⊎◌, inl, inr, In, In-append_left, In-append_right, length, eqb, count,
  count-append, string_eq, arith, Bool-cases,
}
use perses.Prelude.GoMap.{keys}
use perses.Prelude.Result.{Result, Error, ok, err, errorf}
use perses.VariableOrder.Graph.{
  Graph, dependencies_of, children_of, ready, waiting, release, order_loop, build_order, add_group,
}
use perses.VariableOrder.Graph.Counters.{
  incoming, incoming-parts, incoming-same, incoming-pos, incoming-In,
}
use perses.VariableOrder.Graph.Release.{IsBounded, children_of-release, dependencies_of-release}

abbrev pub concat {ℓ} : {A : Type ℓ} → List (List A) → List A
concat [] = []
concat (xs ∷ rest) = xs ++ concat rest

-- `v` depends on `u`.
abbrev pub DependsOn : Graph → String → String → Type 0
DependsOn g v u = In v (children_of g u)

-- Each variable of a group depends only on variables of the groups before it, or of `done`.
abbrev pub IsOrdered : (String → String → Type 0) → List String → List (List String) → Type 0
IsOrdered D done [] = Unit
IsOrdered D done (group ∷ rest) =
    ((v u : String) → In v group → D v u → In u done) × IsOrdered D (done ++ group) rest

-- A set of variables, not empty, each of which depends on one of the set: there is a cycle in it.
abbrev pub IsStuck : (String → String → Type 0) → List String → Type 0
IsStuck D l = ((v : String) × In v l) × ((v : String) → In v l → (u : String) × In u l × D v u)

pub IsOrdered-weaken :
    (D E : String → String → Type 0) (done : List String) (groups : List (List String))
    → ((v u : String) → E v u → D v u)
    → IsOrdered D done groups
    → IsOrdered E done groups
IsOrdered-weaken D E done [] f o = tt
IsOrdered-weaken D E done (group ∷ rest) f (now, later) =
    (λ v u i d. now v u i (f v u d), IsOrdered-weaken D E (done ++ group) rest f later)

pub IsStuck-map :
    (D E : String → String → Type 0) (l : List String)
    → ((v u : String) → D v u → E v u)
    → IsStuck D l
    → IsStuck E l
IsStuck-map D E l f (some_v, next) = (some_v, λ v i. let (u, j, d) = next v i in (u, j, f v u d))

-- Each counter is the number of edges from the nodes that remain.
pub record Inv (g : Graph) (remaining : List String) : Type 0 where
  pub bounded : IsBounded g
  pub exact : (v : String) → dependencies_of g v ≡ incoming g remaining v

length-ready-waiting :
    (g : Graph) (l : List String) → length (ready g l) + length (waiting g l) ≡ length l
unfolding ready waiting
length-ready-waiting g [] = omega arith
length-ready-waiting g (n ∷ l) = ground (arith, length-ready-waiting g l)

count-ready-waiting :
    (g : Graph) (l : List String) (v : String)
    → count v (ready g l) + count v (waiting g l) ≡ count v l
unfolding ready waiting count
count-ready-waiting g [] v = omega arith
count-ready-waiting g (n ∷ l) v = ground (arith, count-ready-waiting g l v)

In-ready-waiting :
    (g : Graph) (l : List String) (v : String) → In v l → In v (ready g l) ⊎ In v (waiting g l)
unfolding ready waiting
In-ready-waiting g [] v i = absurd i
In-ready-waiting g (n ∷ l) v i = ground (arith, In-ready-waiting g l v)

-- A node is ready when its counter is zero.
ready-zero : (g : Graph) (l : List String) (v : String) → In v (ready g l) → dependencies_of g v ≡ 0
unfolding ready
ready-zero g [] v i = absurd i
ready-zero g (n ∷ l) v i = ground (arith, ready-zero g l v)

none_ready :
    (g : Graph) (l : List String) (v : String)
    → length (ready g l) ≡ 0
    → In v l
    → 0 < dependencies_of g v
unfolding ready
none_ready g [] v e i = absurd i
none_ready g (n ∷ l) v e i = ground (arith, none_ready g l v)

module _ (g : Graph) (l : List String) (inv : Inv g l) where
  incoming-ready : (v : String) → incoming g (ready g l) v ≤ dependencies_of g v
  incoming-ready v = omega (arith, inv.exact v, incoming-parts g l v)

  release-Inv : Inv (release (ready g l) g) (waiting g l)
  release-Inv =
      let h = release (ready g l) g in
      let after = dependencies_of-release (ready g l) g inv.bounded incoming-ready in
      record {
        bounded = λ v. omega (arith, after v, inv.bounded v);
        exact = λ v. omega (
          arith,
          after v,
          inv.exact v,
          incoming-parts g l v,
          incoming-same g h (waiting g l) v (children_of-release (ready g l) g),
        );
      }

  -- What a ready node depends on is not among the nodes that remain.
  ready-free : (v u : String) → In v (ready g l) → In v (children_of g u) → In u l → ⊥
  ready-free v u i j k = omega (arith, ready-zero g l v i, inv.exact v, incoming-In g l u v k j)

  stuck : length (ready g l) ≡ 0 → (v : String) → In v l → (u : String) × In u l × DependsOn g v u
  stuck e v i = incoming-pos g l v (omega (arith, none_ready g l v e i, inv.exact v))

-- What the loop returns: every remaining variable in an order, or a cycle.
unfoldable pub Outcome :
    Graph → List String → List String → Option (Result (List (List String))) → Type 0
Outcome g done remaining r =
    ((groups : List (List String)) × (r ≡ some (ok groups))
      × IsOrdered (DependsOn g) done groups
      × ((v : String) → count v (concat groups) ≡ count v remaining))
    ⊎ ((e : Error) × (r ≡ some (err e)) × ((l : List String) × IsStuck (DependsOn g) l))

-- One more group in front, made of ready nodes.
next_group :
    (g0 : Graph) (done group rest l : List String) (r : Option (Result (List (List String))))
    → ((v u : String) → In v group → DependsOn g0 v u → In u done)
    → ((v : String) → count v group + count v rest ≡ count v l)
    → Outcome g0 (done ++ group) rest r
    → Outcome g0 done l (Option.map (add_group group) r)
unfolding Outcome
next_group g0 done group rest l r first counts (inl (groups, e, ordered, same)) = inl (
  group ∷ groups,
  rw e,
  (first, ordered),
  λ v. omega (arith, count-append v group (concat groups), same v, counts v),
)
next_group g0 done group rest l r first counts (inr (c, e, found)) = inr (c, rw e, found)

order_loop-Outcome :
    (g0 : Graph) (fuel : ℕ) (l : List String) (g : Graph) (done : List String)
    → length l ≤ fuel
    → Inv g l
    → ((u : String) → children_of g u ≡ children_of g0 u)
    → ((v u : String) → DependsOn g0 v u → In u done ⊎ In u l)
    → Outcome g0 done l (order_loop fuel l g)
unfolding order_loop
order_loop-Outcome g0 fuel [] g done f inv same from =
    unfold Outcome in inl ([], refl, tt, λ v. refl)
order_loop-Outcome g0 zero (n ∷ l) g done f inv same from = absurd (omega arith)
order_loop-Outcome g0 (suc fuel) (n ∷ l) g done f inv same from =
    let all = n ∷ l in
    let group = ready g all in
    let rest = waiting g all in
    let later =
      order_loop-Outcome g0 fuel (waiting g (n ∷ l)) (release (ready g (n ∷ l)) g)
        (done ++ ready g (n ∷ l)) in
    elim (Bool-cases (eqb (length group) 0)) [
      | inl e ↦ rw e (no_group e)
      | inr e ↦ rw e (
          next_group g0 done group rest all _ (λ v u i d. earlier v u i d (from v u d))
            (count-ready-waiting g all)
            (later (fewer e) (release-Inv g all inv) kept (λ v u d. among v u d (from v u d))))
    ]
  where
    no_group :
        eqb (length (ready g (n ∷ l))) 0 ≡ true
        → Outcome g0 done (n ∷ l) (some (err (errorf "circular dependency detected")))
    no_group e =
        unfold Outcome in
        inr (
          errorf "circular dependency detected",
          refl,
          (
            n ∷ l,
            (
              (n, inl refl),
              λ v i.
                  let (u, j, d) = stuck g (n ∷ l) inv (ground arith) v i in
                  (u, j, subst (λ cs. In v cs) (same u) d),
            ),
          ),
        )

    fewer : eqb (length (ready g (n ∷ l))) 0 ≡ false → length (waiting g (n ∷ l)) ≤ fuel
    fewer e = ground (arith, length-ready-waiting g (n ∷ l))

    kept : (u : String) → children_of (release (ready g (n ∷ l)) g) u ≡ children_of g0 u
    kept u = children_of-release (ready g (n ∷ l)) g u ∙ same u

    earlier :
        (v u : String)
        → In v (ready g (n ∷ l))
        → DependsOn g0 v u
        → In u done ⊎ In u (n ∷ l)
        → In u done
    earlier v u i d (inl k) = k
    earlier v u i d (inr k) =
        absurd (ready-free g (n ∷ l) inv v u i (subst (λ cs. In v cs) (sym (same u)) d) k)

    among :
        (v u : String)
        → DependsOn g0 v u
        → In u done ⊎ In u (n ∷ l)
        → In u (done ++ ready g (n ∷ l)) ⊎ In u (waiting g (n ∷ l))
    among v u d (inl k) = inl (In-append_left u done (ready g (n ∷ l)) k)
    among v u d (inr k) = elim (In-ready-waiting g (n ∷ l) u k) [
      | inl j ↦ inl (In-append_right u done (ready g (n ∷ l)) j)
      | inr j ↦ inr j
    ]

pub build_order-Outcome :
    (g : Graph)
    → Inv g (keys g)
    → ((v u : String) → DependsOn g v u → In u (keys g))
    → Outcome g [] (keys g) (build_order g)
unfolding build_order
build_order-Outcome g inv from =
    order_loop-Outcome g (length (keys g)) (keys g) g [] (omega arith) inv (λ u. refl)
      (λ v u d. inr (from v u d))
