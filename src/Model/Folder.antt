-- ===== src/Model/Folder.antt =====
-- pkg/model/api/v1/folder.go: folders, whose items form a tree of folders and of references to
-- dashboards. The loop of `validate` goes through the tree in breadth, on fuel.
pub mod References
use Prim.Native.String.{len}
use perses.Prelude.{
  ℕ, zero, suc, ◌+◌, String, Bool, true, false, not, ◌&&◌, List, [], ◌∷◌, ◌++◌, Option, none, some,
  ◌==◌, string_eq, eqb, ltb, contains, if◌then◌else◌,
}
use perses.Prelude.Result.{Result, ok, err, errorf, ◌>>=◌, ◌>>◌, guard}
use perses.Model.Unmarshal.{unmarshal}
use perses.Model.Kind.{Kind}
use perses.Model.Metadata.{ProjectMetadata}
use perses.Model.Resource.{Resource}

mutual
  pub data FolderItem : Type 0 where
    folder_item : Kind → String → Items → FolderItem

  -- []FolderItem
  pub data Items : Type 0 where
    no_items : Items
    more_items : FolderItem → Items → Items

unfoldable pub items_list : Items → List FolderItem
items_list no_items = []
items_list (more_items x xs) = x ∷ items_list xs

pub record FolderDisplay : Type 0 where
  pub name : String

pub record FolderSpec : Type 0 where
  pub display : Option FolderDisplay
  pub items : Items

abbrev pub Folder : Type 0
Folder = Resource ProjectMetadata FolderSpec

unfoldable pub validate_item : FolderItem → Result FolderItem
validate_item (folder_item kind name items) =
    if not (kind == "Dashboard") && not (kind == "Folder")
    then err (errorf "kind can only be \"Dashboard\" or \"Folder\"")
    else if eqb (len name) 0
    then err (errorf "name is required")
    else if kind == "Dashboard" && has_items items
    then err (errorf "when kind is equal to \"Dashboard\", then items must be empty")
    else ok (folder_item kind name items)
  where
    has_items : Items → Bool
    has_items no_items = false
    has_items (more_items x xs) = true

unfoldable pub unmarshal_item : Result FolderItem → FolderItem → Result (Unit {0}) × FolderItem
unmarshal_item = unmarshal validate_item

-- The loop over itemList, with the names in dashboardSet; `none` when the fuel is used up.
unfoldable pub reference_loop : ℕ → List FolderItem → List String → Option (Result (Unit {0}))
reference_loop fuel [] dashboard_set = some (ok tt)
reference_loop zero (x ∷ item_list) dashboard_set = none
reference_loop (suc fuel) (folder_item kind name items ∷ item_list) dashboard_set =
    elim (kind == "Dashboard") [
      | true ↦ elim (contains dashboard_set name) [
        | true ↦ some (err (errorf "dashboard is referenced multiple times in the folder"))
        | false ↦ reference_loop fuel item_list (name ∷ dashboard_set)
      ]
      | false ↦ reference_loop fuel (item_list ++ items_list items) dashboard_set
    ]

-- The number of items in the tree, a round of the loop for each.
unfoldable mutual
  pub size_item : FolderItem → ℕ
  size_item (folder_item kind name items) = suc (size_items items)

  pub size_items : Items → ℕ
  size_items no_items = 0
  size_items (more_items x xs) = size_item x + size_items xs

unfoldable pub validate : Folder → Option (Result Folder)
validate f =
    if not (f.kind == "Folder")
    then some (err (errorf "invalid kind for a Folder type"))
    else elim (reference_loop (size_items f.spec.items) (items_list f.spec.items) []) [
      | none ↦ none
      | some (err e) ↦ some (err e)
      | some (ok _) ↦ some (ok f)
    ]
