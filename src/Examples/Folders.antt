-- ===== src/Examples/Folders.antt =====
-- A folder with one dashboard below another folder.
use perses.Prelude.{String, ◌≡◌, ◌≤◌, [], none, some, ◌⊎◌, count, string_eq}
use perses.Prelude.Result.{Error, ok, err}
use perses.Model.Folder.{Folder, folder_item, no_items, more_items, validate}
use perses.Model.Folder.References.{references, validate_lem}

abbrev team : Folder
team = record {
  kind = "Folder";
  metadata = record {
    metadata = record { name = "team"; created_at = 0; updated_at = 0; version = 0; tags = [] };
    project = "p";
  };
  spec = record {
    display = none;
    items =
        more_items
          (folder_item "Folder" "hosts"
            (more_items (folder_item "Dashboard" "cpu" no_items) no_items))
          no_items;
  };
}

validate_lem_example :
    ((validate team ≡ some (ok team))
      × (team.kind ≡ "Folder")
      × ((a : String) → count a (references team.spec.items) ≤ 1))
    ⊎ (((e : Error) × (validate team ≡ some (err e)))
        × (team.kind ≡ "Folder" → ((a : String) → count a (references team.spec.items) ≤ 1) → ⊥))
validate_lem_example = validate_lem team
