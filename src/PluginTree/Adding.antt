-- ===== src/PluginTree/Adding.antt =====
-- What `Add` does to a tree, and what `Get` finds afterwards.
use perses.Prelude.{
  String, ◌≡◌, refl, sym, ap, ◌∙◌, subst, Bool, true, false, [], none, some, ◌==◌, string_eq,
  if◌then◌else◌, arith, ◌⊎◌, inl, inr, Bool-cases, ◌&&◌,
}
use perses.Prelude.GoMap.{lookup, insert, lookup-insert, lookup-nil}
use perses.PluginTree.{
  Node, node_eq, same_node, same_node_iff, ModuleMetadata, Versions, Tree, at_key, latest_version,
  new_node, is_latest, ensure_key, set_version, add, get,
}
use perses.PluginTree.Latest.{IsPointed, IsCurrent, with_version, with_version-IsPointed}

-- The version that Get asks for: an empty one means the latest.
unfoldable pub asked : ModuleMetadata → String
asked m = if m.version == "" then latest_version else m.version

module _ (less : String → String → Bool) {T : Type 0} where
  versions_of-ensure_key :
      (key k : Node) (t : Tree T) → at_key (lookup k (ensure_key less key t)) ≡ at_key (lookup k t)
  unfolding ensure_key
  versions_of-ensure_key key k t = ground (arith, lookup-insert key k [] t, same_node_iff key k)

  versions_of-set_version :
      (key k : Node) (version : String) (x : T) (t : Tree T)
      → at_key (lookup k (set_version less key version x t)) ≡ (
          if same_node key k then insert version x (at_key (lookup key t)) else at_key (lookup k t))
  unfolding set_version
  versions_of-set_version key k version x t =
      ground (arith, lookup-insert key k (insert version x (at_key (lookup key t))) t)

  -- Only the versions of the added plugin change.
  versions_of-add :
      (name : String) (m : ModuleMetadata) (x : T) (t : Tree T) (k : Node)
      → at_key (lookup k (add less name m x t)) ≡ (
          if same_node (new_node name m.registry) k
          then with_version less m.version x (at_key (lookup k t))
          else at_key (lookup k t))
  unfolding add
  versions_of-add name m x t k =
      let key = new_node name m.registry in
      let t0 = ensure_key less key t in
      let t1 = set_version less key m.version x t0 in
      ground (
        arith,
        versions_of-set_version key k latest_version x t1,
        versions_of-set_version key k m.version x t0,
        versions_of-set_version key key m.version x t0,
        versions_of-ensure_key key k t,
        versions_of-ensure_key key key t,
        same_node_iff key k,
        same_node_iff key key,
      )

  looked_up :
      (key : Node) (version : String) (t : Tree T)
      → elim (lookup key t) [ none ↦ none | some versions ↦ lookup version versions ]
        ≡ lookup version (at_key (lookup key t))
  looked_up key version t = ground (arith, lookup-nil {V = T} version)

  get-asked :
      (other : String) (q : ModuleMetadata) (t : Tree T)
      → get less other q t ≡ lookup (asked q) (at_key (lookup (new_node other q.registry) t))
  unfolding get asked
  get-asked other q t = looked_up (new_node other q.registry) _ t

  lookup-with_version :
      (version v : String) (x : T) (vs : Versions T)
      → lookup v (with_version less version x vs) ≡ (
          if v == version
          then some x
          else if v == latest_version && is_latest less version (insert version x vs)
          then some x
          else lookup v vs)
  lookup-with_version version v x vs = ground (
    arith,
    lookup-insert latest_version v x (insert version x vs),
    lookup-insert version v x vs,
    string_eq.beq_iff latest_version v,
    string_eq.beq_iff v latest_version,
    string_eq.beq_iff version v,
    string_eq.beq_iff v version,
  )

  -- After Add, Get finds the instance under its name, registry and version, and under "latest" when
  -- no version of the plugin exceeds the new one; for everything else it finds what it found before.
  pub get-add :
      (name other : String) (m q : ModuleMetadata) (x : T) (t : Tree T)
      → get less other q (add less name m x t) ≡ (
          if same_node (new_node name m.registry) (new_node other q.registry)
          then if asked q == m.version
            then some x
            else if asked q == latest_version
                && is_latest less m.version
                    (insert m.version x (at_key (lookup (new_node name m.registry) t)))
            then some x
            else get less other q t
          else get less other q t)
  get-add name other m q x t =
      let key = new_node name m.registry in
      let k = new_node other q.registry in
      ground (
        arith,
        get-asked other q t,
        get-asked other q (add less name m x t),
        versions_of-add name m x t k,
        lookup-with_version m.version (asked q) x (at_key (lookup k t)),
        same_node_iff key k,
      )

  module _ (irreflexive : (a : String) → less a a ≡ false)
      (transitive : (a b c : String) → less a b ≡ true → less b c ≡ true → less a c ≡ true) where
    -- When the order of the versions is irreflexive and transitive and each plugin's "latest" is an
    -- instance that no version of it exceeds, so it is after a version that is not called "latest"
    -- has been added, and the added plugin has a "latest".
    pub add-IsCurrent :
        (name : String) (m : ModuleMetadata) (x : T) (t : Tree T)
        → (m.version == latest_version) ≡ false
        → ((k : Node) → IsCurrent less (at_key (lookup k t)))
        → IsPointed less (at_key (lookup (new_node name m.registry) (add less name m x t)))
          × ((k : Node) → IsCurrent less (at_key (lookup k (add less name m x t))))
    add-IsCurrent name m x t n current = (
      pointed (new_node name m.registry) (here _),
      λ k. every k (Bool-cases (same_node (new_node name m.registry) k)),
    )
      where
        here : (k : Node) → same_node k k ≡ true
        here k = (same_node_iff k k).1 refl

        pointed :
            (k : Node)
            → same_node (new_node name m.registry) k ≡ true
            → IsPointed less (at_key (lookup k (add less name m x t)))
        pointed k e =
            subst (IsPointed less)
              (sym (
                versions_of-add name m x t k
                ∙ ap
                    (λ b.
                      if b
                      then with_version less m.version x (at_key (lookup k t))
                      else at_key (lookup k t))
                    e))
              (with_version-IsPointed less irreflexive transitive m.version x (at_key (lookup k t))
                n (current k))

        every :
            (k : Node)
            → (same_node (new_node name m.registry) k ≡ true)
              ⊎ (same_node (new_node name m.registry) k ≡ false)
            → IsCurrent less (at_key (lookup k (add less name m x t)))
        every k (inl e) = unfold IsCurrent in inr (pointed k e)
        every k (inr e) =
            subst (IsCurrent less)
              (sym (
                versions_of-add name m x t k
                ∙ ap
                    (λ b.
                      if b
                      then with_version less m.version x (at_key (lookup k t))
                      else at_key (lookup k t))
                    e))
              (current k)
