-- ===== src/PluginTree/Latest.antt =====
-- The pointer to the latest version of one plugin.
use perses.Prelude.{
  String, ◌≡◌, Bool, true, false, [], ◌∷◌, some, ◌==◌, string_eq, contains, if◌then◌else◌, arith,
  ◌⊎◌, inl, inr, Bool-cases,
}
use perses.Prelude.GoMap.{lookup, insert, lookup-insert, keys, contains-keys-insert}
use perses.PluginTree.{Versions, latest_version, is_latest}

module _ (less : String → String → Bool) {T : Type 0} where
  is_latest-true :
      (version : String) (vs : Versions T) (w : String)
      → is_latest less version vs ≡ true
      → contains (keys vs) w ≡ true
      → (w == latest_version) ≡ false
      → less version w ≡ false
  unfolding is_latest contains
  is_latest-true version [] w h c n = cc
  is_latest-true version ((v, a) ∷ vs) w h c n =
      ground (arith, is_latest-true version vs w, string_eq.beq_iff v w)

  is_latest-false :
      (version : String) (vs : Versions T)
      → is_latest less version vs ≡ false
      → (w : String) × (contains (keys vs) w ≡ true)
        × ((w == latest_version) ≡ false)
        × (less version w ≡ true)
  unfolding is_latest contains
  is_latest-false version [] h = cc
  is_latest-false version ((v, a) ∷ vs) h = elim (Bool-cases (v == latest_version)) [
    | inl e ↦ later (is_latest-false version vs (ground arith))
    | inr e ↦ elim (Bool-cases (less version v)) [
      | inl l ↦ (v, ground (arith, string_eq.beq_iff v v), e, l)
      | inr l ↦ later (is_latest-false version vs (ground arith))
    ]
  ]
    where
      later :
          ((w : String) × (contains (keys vs) w ≡ true)
            × ((w == latest_version) ≡ false)
            × (less version w ≡ true))
          → (w : String) × (contains (v ∷ keys vs) w ≡ true)
            × ((w == latest_version) ≡ false)
            × (less version w ≡ true)
      later (w, c, n, l) = (w, ground arith, n, l)

  -- "latest" points to the instance of a version that no other version exceeds.
  unfoldable pub IsPointed : Versions T → Type 0
  IsPointed vs =
      (v : String) × (a : T) × ((v == latest_version) ≡ false)
      × (lookup v vs ≡ some a)
      × (lookup latest_version vs ≡ some a)
      × ((w : String)
          → contains (keys vs) w ≡ true
          → (w == latest_version) ≡ false
          → less v w ≡ false)

  unfoldable pub IsCurrent : Versions T → Type 0
  IsCurrent vs = (vs ≡ []) ⊎ IsPointed vs

  -- the versions of one plugin after one more
  abbrev pub with_version : String → T → Versions T → Versions T
  with_version version x vs =
      if is_latest less version (insert version x vs)
      then insert latest_version x (insert version x vs)
      else insert version x vs

  module _ (irreflexive : (a : String) → less a a ≡ false)
      (transitive : (a b c : String) → less a b ≡ true → less b c ≡ true → less a c ≡ true) where
    newest :
        (version : String) (x : T) (vs : Versions T)
        → (version == latest_version) ≡ false
        → is_latest less version (insert version x vs) ≡ true
        → IsPointed (insert latest_version x (insert version x vs))
    unfolding IsPointed
    newest version x vs n h = (
      version,
      x,
      n,
      ground (
        arith,
        lookup-insert latest_version version x (insert version x vs),
        lookup-insert version version x vs,
        string_eq.beq_iff version version,
      ),
      ground (arith, lookup-insert latest_version latest_version x (insert version x vs)),
      λ w c m. ground (
        arith,
        is_latest-true version (insert version x vs) w h,
        contains-keys-insert latest_version w x (insert version x vs),
        string_eq.beq_iff latest_version w,
        string_eq.beq_iff w latest_version,
      ),
    )

    older :
        (version : String) (x : T) (vs : Versions T) (w : String)
        → (version == latest_version) ≡ false
        → contains (keys (insert version x vs)) w ≡ true
        → (w == latest_version) ≡ false
        → less version w ≡ true
        → IsPointed vs
        → IsPointed (insert version x vs)
    unfolding IsPointed
    older version x vs w n c m l (v, a, k, p, q, top) =
        let old_w : contains (keys vs) w ≡ true = ground (
          arith,
          contains-keys-insert version w x vs,
          string_eq.beq_iff version w,
          irreflexive version,
        ) in
        let below : less v version ≡ false =
          ground (arith, transitive v version w, top w old_w m) in
        (
          v,
          a,
          k,
          ground (arith, lookup-insert version v x vs, string_eq.beq_iff version v, top w old_w m),
          ground (arith, lookup-insert version latest_version x vs),
          λ u d e. ground (
            arith,
            contains-keys-insert version u x vs,
            string_eq.beq_iff version u,
            top u,
            below,
          ),
        )

    only :
        (version : String) (x : T) (w : String)
        → contains (keys (insert version x [])) w ≡ true
        → less version w ≡ false
    unfolding insert contains
    only version x w c = ground (arith, string_eq.beq_iff version w, irreflexive version)

    -- Adding a version keeps "latest" at an instance that no version exceeds.
    pub with_version-IsPointed :
        (version : String) (x : T) (vs : Versions T)
        → (version == latest_version) ≡ false
        → IsCurrent vs
        → IsPointed (with_version version x vs)
    unfolding IsCurrent
    with_version-IsPointed version x vs n current =
        elim (Bool-cases (is_latest less version (insert version x vs))) [
          | inl h ↦ rw h (newest version x vs n h)
          | inr h ↦ rw h (kept current (is_latest-false version (insert version x vs) h))
        ]
      where
        kept :
            (vs ≡ []) ⊎ IsPointed vs
            → ((w : String) × (contains (keys (insert version x vs)) w ≡ true)
                × ((w == latest_version) ≡ false)
                × (less version w ≡ true))
            → IsPointed (insert version x vs)
        kept (inl e) (w, c, m, l) = absurd (ground (arith, only version x w, e))
        kept (inr i) (w, c, m, l) = older version x vs w n c m l i
