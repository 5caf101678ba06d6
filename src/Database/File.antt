-- ===== src/Database/File.antt =====
-- internal/api/database/file/file.go and query.go: the database in files, one for each resource. A file
-- system is its folders and the data of its files; the disk itself does not fail. The codec of the
-- extension (encoding/json or yaml) is a parameter. A query is the kind, the project and the prefix
-- of the name that the queries of the kinds hold.
pub mod Store
pub mod Keys
pub mod Selected
pub mod Found
pub mod Shrinking
use perses.Prelude.{
  String, ◌≡◌, refl, Bool, true, false, not, ◌&&◌, ◌||◌, List, [], ◌∷◌, ◌++◌, Option, none, some,
  ◌==◌, string_eq, eqb, contains, if◌then◌else◌, map,
}
use Prim.Native.String.{len, ◌++◌ as append_text}
use perses.Prelude.GoMap.{GoMap, lookup, insert, delete}
use perses.Prelude.Text.{to_lower, has_prefix}
use perses.Prelude.Result.{Result, Error, ok, err, errorf, key_not_found, key_conflict, ◌>>=◌}
use perses.Model.Kind.{Kind, plural_kind}
use perses.Model.Metadata.{Metadata, ProjectMetadata}
use perses.Toolbox.{EntityMetadata, plain, in_project, get_name, flatten_metadata}
use perses.Database.Path.{
  FilePath, path_eq, join, clean, with_extension, file_name, is_below, base, extension_of,
}

-- modelAPI.Entity: a resource of some kind
pub record Document (B : Type 0) : Type 0 where
  pub kind : Kind
  pub metadata : EntityMetadata
  pub body : B

pub record FileSystem (D : Type 0) : Type 0 where
  pub folders : List FilePath
  pub files : GoMap FilePath D

-- The folder of the configuration as a clean path.
pub record Dao : Type 0 where
  pub folder : FilePath
  pub extension : String
  pub case_sensitive : Bool

abbrev pub flattened : {B : Type 0} → Dao → Document B → Document B
flattened d e = record e { metadata = flatten_metadata d.case_sensitive e.metadata }

unfoldable pub generate_id : Kind → EntityMetadata → FilePath
generate_id kind (in_project m) = join [] (plural_kind kind ∷ m.project ∷ m.name ∷ [])
generate_id kind (plain m) = join [] (plural_kind kind ∷ m.name ∷ [])

unfoldable pub build_path : Dao → FilePath → FilePath
build_path d key = clean d.folder (with_extension d.extension key)

unfoldable pub show_path : FilePath → String
show_path [] = "."
show_path (x ∷ []) = x
show_path (x ∷ y ∷ p) = append_text x (append_text "/" (show_path (y ∷ p)))

-- the folders on the way to a file, which MkdirAll makes
unfoldable pub folders_to : FilePath → FilePath → List FilePath
folders_to above [] = []
folders_to above (x ∷ []) = []
folders_to above (x ∷ y ∷ p) = (above ++ x ∷ []) ∷ folders_to (above ++ x ∷ []) (y ∷ p)

-- os.Stat(path) finds a folder or a file
unfoldable pub exists : {D : Type 0} → FileSystem D → FilePath → Bool
exists fs p = contains fs.folders p || elim (lookup p fs.files) [ none ↦ false | some _ ↦ true ]

unfoldable pub write_file : {D : Type 0} → FilePath → D → FileSystem D → FileSystem D
write_file p data_ fs = record {
  folders = fs.folders ++ folders_to [] p;
  files = insert p data_ fs.files;
}

unfoldable pub remove_file : {D : Type 0} → FilePath → FileSystem D → FileSystem D
remove_file p fs = record fs { files = delete p fs.files }

pub record Codec (B D : Type 0) : Type 0 where
  pub marshal : Document B → Result D
  pub unmarshal : Kind → D → Result (Document B)

-- The queries of the kinds; any other query is not managed.
pub data Query : Type 0 where
  project_query : Kind → String → String → Query
  global_query : Kind → String → Query
  other_query : Query

abbrev pub kind_of : Query → Kind
kind_of (project_query kind project prefix) = kind
kind_of (global_query kind prefix) = kind
kind_of other_query = ""

unfoldable pub generate_project_resource_query : Dao → Kind → String → FilePath
generate_project_resource_query d kind project =
    if eqb (len project) 0
    then join d.folder (plural_kind kind ∷ [])
    else join d.folder (plural_kind kind ∷ project ∷ [])

unfoldable pub generate_resource_query : Dao → Kind → FilePath
generate_resource_query d kind = join d.folder (plural_kind kind ∷ [])

pub record Selection : Type 0 where
  pub path_folder : FilePath
  pub prefix : String

unfoldable pub lower_path : FilePath → FilePath
lower_path [] = []
lower_path (x ∷ p) = to_lower x ∷ lower_path p

abbrev pub lowered : Dao → Selection → Selection
lowered d s =
    if not d.case_sensitive
    then record { path_folder = lower_path s.path_folder; prefix = to_lower s.prefix }
    else s

-- buildQuery; whether the folder exists is asked of the file system by the callers.
unfoldable pub build_query : Dao → Query → Result Selection
build_query d (project_query kind project prefix) = ok (
    lowered d
      (record { path_folder = generate_project_resource_query d kind project; prefix = prefix }))
build_query d (global_query kind prefix) =
    ok (lowered d (record { path_folder = generate_resource_query d kind; prefix = prefix }))
build_query d other_query = err (errorf "this type of query is not managed")

-- The test of visit on the path of a file.
unfoldable pub is_visited : Dao → Selection → FilePath → Bool
is_visited d s p =
    is_below s.path_folder p
    && (if not (extension_of (base p) == file_name "" d.extension)
        then false
        else eqb (len s.prefix) 0 || has_prefix (base p) s.prefix)

unfoldable pub visit : {D : Type 0} → Dao → Selection → GoMap FilePath D → List FilePath
visit d s [] = []
visit d s ((p, data_) ∷ files) =
    let rest = visit d s files in if is_visited d s p then p ∷ rest else rest

unfoldable pub remove_files : {D : Type 0} → List FilePath → FileSystem D → FileSystem D
remove_files [] fs = fs
remove_files (p ∷ ps) fs = remove_files ps (remove_file p fs)

-- os.RemoveAll(folder)
unfoldable pub keep_outside : {D : Type 0} → FilePath → GoMap FilePath D → GoMap FilePath D
keep_outside root [] = []
keep_outside root ((p, data_) ∷ files) =
    let rest = keep_outside root files in if is_below root p then rest else (p, data_) ∷ rest

unfoldable pub folders_outside : FilePath → List FilePath → List FilePath
folders_outside root [] = []
folders_outside root (p ∷ ps) =
    let rest = folders_outside root ps in if is_below root p then rest else p ∷ rest

unfoldable pub remove_all : {D : Type 0} → FilePath → FileSystem D → FileSystem D
remove_all root fs = record {
  folders = folders_outside root fs.folders;
  files = keep_outside root fs.files;
}

-- the removals of DeleteByQuery, for a folder that exists
unfoldable pub remove_selected : {D : Type 0} → Dao → Selection → FileSystem D → FileSystem D
remove_selected d s fs =
    if eqb (len s.prefix) 0
    then remove_all s.path_folder fs
    else remove_files (visit d s fs.files) fs

unfoldable pub delete_by_query :
    {D : Type 0} → Dao → Query → FileSystem D → Result (Unit {0}) × FileSystem D
delete_by_query d q fs = elim (build_query d q) [
  | err e ↦ (err (errorf "unable to build the query"), fs)
  | ok s ↦ if exists fs s.path_folder then (ok tt, remove_selected d s fs) else (ok tt, fs)
]

unfoldable pub delete_document :
    {D : Type 0} → Dao → Kind → EntityMetadata → FileSystem D → Result (Unit {0}) × FileSystem D
delete_document d kind m fs =
    let key = generate_id kind m in
    elim (lookup (build_path d key) fs.files) [
      | none ↦ (err (key_not_found (show_path key)), fs)
      | some _ ↦ (ok tt, remove_file (build_path d key) fs)
    ]

module _ {B D : Type 0} (codec : Codec B D) (d : Dao) where
  unfoldable pub write_document :
      FilePath → Document B → FileSystem D → Result (Document B) × FileSystem D
  write_document key e fs = elim (codec.marshal e) [
    | err c ↦ (err c, record fs { folders = fs.folders ++ folders_to [] (build_path d key) })
    | ok data_ ↦ (ok e, write_file (build_path d key) data_ fs)
  ]

  -- Create; the caller sees the flattened entity.
  unfoldable pub create : Document B → FileSystem D → Result (Document B) × FileSystem D
  create e fs =
      let key = generate_id e.kind (flattened d e).metadata in
      if exists fs (build_path d key)
      then (err (key_conflict (show_path key)), fs)
      else write_document key (flattened d e) fs

  unfoldable pub upsert : Document B → FileSystem D → Result (Document B) × FileSystem D
  upsert e fs = write_document (generate_id e.kind (flattened d e).metadata) (flattened d e) fs

  -- the check of the name, since some file systems ignore case
  unfoldable pub check_name : FilePath → String → Result (Document B) → Result (Document B)
  check_name key name (err c) = err c
  check_name key name (ok e) =
      if not (get_name e.metadata == name) then err (key_not_found (show_path key)) else ok e

  unfoldable pub get : Kind → EntityMetadata → FileSystem D → Result (Document B)
  get kind m fs =
      let metadata = flatten_metadata d.case_sensitive m in
      let key = generate_id kind metadata in
      elim (lookup (build_path d key) fs.files) [
        | none ↦ err (key_not_found (show_path key))
        | some data_ ↦ check_name key (get_name metadata) (codec.unmarshal kind data_)
      ]

  -- os.ReadFile and unmarshal for each file that was visited
  unfoldable pub read_files : Kind → List FilePath → FileSystem D → Result (List (Document B))
  read_files kind [] fs = ok []
  read_files kind (p ∷ ps) fs = elim (lookup p fs.files) [
    | none ↦ err (errorf "no such file or directory")
    | some data_ ↦ do e ← codec.unmarshal kind data_; rest ← read_files kind ps fs; ok (e ∷ rest)
  ]

  unfoldable pub query : Query → FileSystem D → Result (List (Document B))
  query q fs = elim (build_query d q) [
    | err c ↦ err (errorf "unable to build the query")
    | ok s ↦
        if exists fs s.path_folder then read_files (kind_of q) (visit d s fs.files) fs else ok []
  ]
