-- ===== src/Examples/Plugins.antt =====
-- A plugin with one version, and a newer one. The longer text is the newer version here.
use Prim.Native.String.{len}
use perses.Prelude.{
  contains, subst, sym, String, ◌≡◌, refl, Bool, true, false, some, ◌==◌, string_eq, ltb,
  if◌then◌else◌, [], ◌∷◌, ◌&&◌, arith, inl, inr,
}
use perses.Prelude.GoMap.{lookup, insert}
use perses.PluginTree.{
  Node, node_eq, same_node, ModuleMetadata, Tree, Versions, at_key, latest_version, new_node,
  is_latest, add, get,
}
use perses.PluginTree.Latest.{IsPointed, IsCurrent}
use perses.PluginTree.Adding.{asked, get-add, add-IsCurrent}

abbrev shorter : String → String → Bool
shorter a b = ltb (len a) (len b)

shorter_irrefl : (a : String) → shorter a a ≡ false
shorter_irrefl a = ground arith

shorter_trans : (a b c : String) → shorter a b ≡ true → shorter b c ≡ true → shorter a c ≡ true
shorter_trans a b c h k = ground arith

abbrev chart : Node
chart = record { name = "chart"; registry = "perses.dev" }

abbrev first_name : String
first_name = "v1"

abbrev first_version : Versions String
first_version = ("v1", "one") ∷ ("latest", "one") ∷ []

abbrev one_chart : Tree String
one_chart = (chart, first_version) ∷ []

abbrev newer : ModuleMetadata
newer = record { registry = ""; version = "v1.1" }

get-add_example : get shorter "chart" newer (add shorter "chart" newer "two" one_chart) ≡ (
    if same_node (new_node "chart" newer.registry) (new_node "chart" newer.registry)
    then if asked newer == newer.version
      then some "two"
      else if asked newer == latest_version
          && is_latest shorter newer.version (
              insert newer.version "two"
                (at_key (lookup (new_node "chart" newer.registry) one_chart)))
      then some "two"
      else get shorter "chart" newer one_chart
    else get shorter "chart" newer one_chart)
get-add_example = get-add shorter "chart" "chart" newer newer "two" one_chart

not_above : (w : String) → first_name ≡ w → shorter "v1" w ≡ false
not_above w e = subst (λ x. shorter "v1" x ≡ false) e refl

first-IsPointed : IsPointed shorter first_version
unfolding IsPointed lookup contains
first-IsPointed = (
  "v1",
  "one",
  refl,
  refl,
  refl,
  λ w c n. ground (
    arith,
    not_above w,
    string_eq.beq_iff "v1" w,
    string_eq.beq_iff "latest" w,
    string_eq.beq_iff w "latest",
  ),
)

found : (k : Node) → at_key (lookup k one_chart) ≡ (if same_node chart k then first_version else [])
unfolding lookup
found k = ground arith

one_chart-IsCurrent : (k : Node) → IsCurrent shorter (at_key (lookup k one_chart))
unfolding IsCurrent
one_chart-IsCurrent k = subst (IsCurrent shorter) (sym (found k)) (cases (same_node chart k))
  where
    cases : (b : Bool) → IsCurrent shorter (if b then first_version else [])
    cases true = inr first-IsPointed
    cases false = inl refl

add-IsCurrent_example :
    IsPointed shorter (
      at_key (lookup (new_node "chart" newer.registry) (add shorter "chart" newer "two" one_chart)))
    × ((k : Node)
        → IsCurrent shorter (at_key (lookup k (add shorter "chart" newer "two" one_chart))))
add-IsCurrent_example =
    add-IsCurrent shorter shorter_irrefl shorter_trans "chart" newer "two" one_chart refl
      one_chart-IsCurrent
