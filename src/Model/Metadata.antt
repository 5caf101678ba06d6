-- ===== src/Model/Metadata.antt =====
-- pkg/model/api/v1/metadata.go. A time is a number of clock ticks, which the caller reads from the
-- clock; the version is an unsigned 64-bit integer. `common.ValidateID` is of another repository and is a
-- parameter. A set of tags is a list.
use Prim.Native.String.{len, count}
use perses.Prelude.{
  ℕ, ◌+◌, ◌%◌, ◌^◌, String, Bool, List, [], ◌∷◌, ltb, eqb, length, ◌==◌, string_eq, not,
  if◌then◌else◌,
}
use perses.Prelude.Text.{to_lower, trim_space}
use perses.Prelude.Result.{Result, ok, err, errorf, ◌>>◌}
use perses.Model.Unmarshal.{unmarshal}

pub record Metadata : Type 0 where
  pub name : String
  pub created_at : ℕ
  pub updated_at : ℕ
  pub version : ℕ
  pub tags : List String

unfoldable pub new_metadata : String → Metadata
new_metadata name = record { name = name; created_at = 0; updated_at = 0; version = 0; tags = [] }

unfoldable pub create_now : ℕ → Metadata → Metadata
create_now now m = record m { created_at = now; updated_at = now; version = 0 }

unfoldable pub update : ℕ → Metadata → Metadata → Metadata
update now m previous = record m {
  created_at = previous.created_at;
  updated_at = now;
  version = (previous.version + 1) % 2 ^ 64;
}

unfoldable pub flatten : Bool → Metadata → Metadata
flatten sensitive m = if not sensitive then record m { name = to_lower m.name } else m

abbrev max_tags : ℕ
max_tags = 20

abbrev max_tag_length : ℕ
max_tag_length = 50

-- the body of the loop over the tags
unfoldable pub validate_tag : String → Result (Unit {0})
validate_tag tag =
    if eqb (len (trim_space tag)) 0
    then err (errorf "tag cannot be empty")
    else if not (trim_space tag == tag)
    then err (errorf "tag cannot start or end with whitespace")
    else if ltb max_tag_length (count tag)
    then err (errorf "tag cannot contain more than 50 characters")
    else ok tt

unfoldable pub validate_each : List String → Result (Unit {0})
validate_each [] = ok tt
validate_each (tag ∷ tags) = do validate_tag tag; validate_each tags

unfoldable pub validate_tags : Metadata → Result (Unit {0})
validate_tags m =
    if ltb max_tags (length m.tags)
    then err (errorf "cannot contain more than 20 tags")
    else validate_each m.tags

module _ (validate_id : String → Result (Unit {0})) where
  unfoldable pub validate : Metadata → Result Metadata
  validate m = do validate_id m.name; validate_tags m; ok m

  unfoldable pub unmarshal_metadata : Result Metadata → Metadata → Result (Unit {0}) × Metadata
  unmarshal_metadata = unmarshal validate

-- The metadata of a resource that belongs to a project.
pub record ProjectMetadata : Type 0 where
  pub metadata : Metadata
  pub open metadata use *
  pub project : String

unfoldable pub new_project_metadata : String → String → ProjectMetadata
new_project_metadata project name = record { metadata = new_metadata name; project = project }

unfoldable pub flatten_project : Bool → ProjectMetadata → ProjectMetadata
flatten_project sensitive pm =
    if not sensitive
    then record {
      metadata = record pm.metadata { name = to_lower pm.name };
      project = to_lower pm.project;
    }
    else pm

unfoldable pub update_project : ℕ → ProjectMetadata → ProjectMetadata → ProjectMetadata
update_project now pm previous = record pm { metadata = update now pm.metadata previous.metadata }
