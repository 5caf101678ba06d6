-- ===== src/PluginTree.antt =====
-- internal/api/plugin/tree/tree.go: the loaded plugins by name and registry, each with its versions and
-- a pointer to the latest one, which is kept in the same map under "latest". semver.Compare is of
-- another repository; it is a parameter, by the test `Compare(a, b) < 0`.
pub mod Latest
pub mod Adding
use perses.Prelude.{
  String, ◌≡◌, refl, Bool, true, false, not, ◌&&◌, ◌||◌, List, [], ◌∷◌, Option, none, some, ◌==◌,
  string_eq, Eq, ◌↔◌, if◌then◌else◌, arith,
}
use perses.Prelude.GoMap.{GoMap, lookup, insert, delete}

pub record Node : Type 0 where
  pub name : String
  pub registry : String

unfoldable pub same_node : Node → Node → Bool
same_node a b = a.name == b.name && a.registry == b.registry

pub same_node_iff : (a b : Node) → (same_node a b ≡ true) ↔ (a ≡ b)
unfolding same_node
same_node_iff a b =
    ground (arith, string_eq.beq_iff a.name b.name, string_eq.beq_iff a.registry b.registry)

instance abbrev pub node_eq : Eq Node
node_eq = record { beq = same_node; beq_iff = same_node_iff }

abbrev pub latest_version : String
latest_version = "latest"

abbrev pub default_registry : String
default_registry = "perses.dev"

pub record ModuleMetadata : Type 0 where
  pub registry : String
  pub version : String

unfoldable pub new_node : String → String → Node
new_node name registry =
    if registry == ""
    then record { name = name; registry = default_registry }
    else record { name = name; registry = registry }

abbrev pub Versions : Type 0 → Type 0
Versions T = GoMap String T

abbrev pub Tree : Type 0 → Type 0
Tree T = GoMap Node (Versions T)

-- t[key], which is empty without the key
abbrev pub at_key : {T : Type 0} → Option (Versions T) → Versions T
at_key none = []
at_key (some versions) = versions

module _ (less : String → String → Bool) {T : Type 0} where
  -- the loop over the versions of one key
  unfoldable pub is_latest : String → Versions T → Bool
  is_latest version [] = true
  is_latest version ((v, instance_) ∷ rest) =
      let later = is_latest version rest in
      if v == latest_version then later else if less version v then false else later

  unfoldable pub get_latest_version : String → Versions T → String
  get_latest_version current [] = current
  get_latest_version current ((v, instance_) ∷ rest) =
      get_latest_version
        (if v == latest_version then current else if less current v then v else current) rest

  -- t[key] = make(map[string]T) if there is none
  unfoldable pub ensure_key : Node → Tree T → Tree T
  ensure_key key t = elim (lookup key t) [ none ↦ insert key [] t | some _ ↦ t ]

  -- t[key][version] = value
  unfoldable pub set_version : Node → String → T → Tree T → Tree T
  set_version key version value t = insert key (insert version value (at_key (lookup key t))) t

  unfoldable pub add : String → ModuleMetadata → T → Tree T → Tree T
  add name m value t =
      let key = new_node name m.registry in
      let t1 = set_version key m.version value (ensure_key key t) in
      if is_latest m.version (at_key (lookup key t1))
      then set_version key latest_version value t1
      else t1

  -- The pointer to the latest version, after a version has been removed. What getLatestVersion
  -- returns is empty or a key of the map, so that the lookup finds it.
  unfoldable pub repoint : Node → Versions T → Tree T → Tree T
  repoint key versions t =
      let latest = get_latest_version "" versions in
      if latest == ""
      then delete key (insert key (delete latest_version versions) t)
      else elim (lookup latest versions) [
        | none ↦ t
        | some value ↦ insert key (insert latest_version value versions) t
      ]

  unfoldable pub remove : String → ModuleMetadata → Tree T → Tree T
  remove name m t =
      let key = new_node name m.registry in
      elim (lookup key t) [
        | none ↦ t
        | some versions ↦
            let rest = delete m.version versions in
            let t1 = insert key rest t in
            if is_latest m.version rest then repoint key rest t1 else t1
      ]

  unfoldable pub get : String → ModuleMetadata → Tree T → Option T
  get name m t =
      let version = if m.version == "" then latest_version else m.version in
      elim (lookup (new_node name m.registry) t) [
        | none ↦ none
        | some versions ↦ lookup version versions
      ]

  unfoldable pub get_with_plugin_metadata : String → Option ModuleMetadata → Tree T → Option T
  get_with_plugin_metadata name none t =
      get name (record { registry = default_registry; version = latest_version }) t
  get_with_plugin_metadata name (some m) t = get name m t

  -- result[key][version] = instance for the versions of one key
  unfoldable pub copy_versions : Node → Versions T → Tree T → Tree T
  copy_versions key [] t = t
  copy_versions key ((version, value) ∷ rest) t =
      copy_versions key rest (set_version key version value t)

  unfoldable pub copy_tree : Tree T → Tree T → Tree T
  copy_tree [] t = t
  copy_tree ((key, versions) ∷ rest) t =
      copy_tree rest (copy_versions key versions (ensure_key key t))

  unfoldable pub add_versions : Node → Versions T → Tree T → Tree T
  add_versions key [] t = t
  add_versions key ((version, value) ∷ rest) t = add_versions key rest (
      if version == latest_version
      then t
      else add key.name (record { registry = key.registry; version = version }) value t)

  unfoldable pub add_tree : Tree T → Tree T → Tree T
  add_tree [] t = t
  add_tree ((key, versions) ∷ rest) t = add_tree rest (add_versions key versions t)

  unfoldable pub merge : Tree T → Tree T → Tree T
  merge a b = add_tree b (copy_tree a [])
