-- ===== src/Database/File/Store.antt =====
-- What is read after a document has been written or removed.
use perses.Prelude.{
  ◌≡◌, refl, sym, subst, true, false, [], ◌++◌, none, some, string_eq, beq_refl, if◌then◌else◌,
  arith, ◌⊎◌, inl, inr, Bool-cases, Option-cases,
}
use perses.Prelude.GoMap.{lookup, lookup-insert, lookup-delete}
use perses.Prelude.Result.{Result, Error, ok, err, Result-cases, key_conflict, key_not_found}
use perses.Model.Kind.{Kind}
use perses.Toolbox.{EntityMetadata, get_name, flatten_metadata}
use perses.Database.Path.{FilePath, path_eq, same_path}
use perses.Database.File.{
  Document, FileSystem, Dao, Codec, flattened, generate_id, build_path, exists, write_file,
  remove_file, write_document, create, upsert, check_name, get, delete_document, show_path,
  folders_to,
}

-- The file of a resource.
unfoldable pub path_of : Dao → Kind → EntityMetadata → FilePath
path_of d kind m = build_path d (generate_id kind (flatten_metadata d.case_sensitive m))

lookup-write_file :
    {D : Type 0} (q p : FilePath) (data_ : D) (fs : FileSystem D)
    → lookup p (write_file q data_ fs).files
      ≡ (if same_path q p then some data_ else lookup p fs.files)
unfolding write_file
lookup-write_file q p data_ fs = lookup-insert q p data_ fs.files

module _ {B D : Type 0} (codec : Codec B D) (d : Dao) where
  -- A document that was marshalled is read back as it was.
  abbrev pub IsLawful : Type 0
  IsLawful =
      (e : Document B) (data_ : D)
      → codec.marshal e ≡ ok data_
      → codec.unmarshal e.kind data_ ≡ ok e

  get-same :
      (fs gs : FileSystem D) (kind : Kind) (m : EntityMetadata)
      → lookup (path_of d kind m) gs.files ≡ lookup (path_of d kind m) fs.files
      → get codec d kind m gs ≡ get codec d kind m fs
  unfolding get path_of
  get-same fs gs kind m h = ground (arith, h)

  get-written :
      (fs : FileSystem D) (e : Document B) (data_ : D)
      → IsLawful
      → codec.marshal (flattened d e) ≡ ok data_
      → lookup (path_of d e.kind e.metadata) fs.files ≡ some data_
      → get codec d e.kind e.metadata fs ≡ ok (flattened d e)
  unfolding get path_of check_name
  get-written fs e data_ law h k = ground (
    arith,
    k,
    law (flattened d e) data_ h,
    beq_refl string_eq (get_name (flatten_metadata d.case_sensitive e.metadata)),
  )

  write_document-ok :
      (key : FilePath) (e : Document B) (fs : FileSystem D) (data_ : D)
      → codec.marshal e ≡ ok data_
      → write_document codec d key e fs ≡ (ok e, write_file (build_path d key) data_ fs)
  unfolding write_document
  write_document-ok key e fs data_ h = rw (h, write_document) refl

  write_document-err :
      (key : FilePath) (e : Document B) (fs : FileSystem D) (c : Error)
      → codec.marshal e ≡ err c
      → write_document codec d key e fs
        ≡ (err c, record fs { folders = fs.folders ++ folders_to [] (build_path d key) })
  unfolding write_document
  write_document-err key e fs c h = rw (h, write_document) refl

  -- A write stores the document under its path and leaves all other paths as they were, or it fails
  -- and no file changes.
  unfoldable pub Written : Document B → FileSystem D → Result (Document B) × FileSystem D → Type 0
  Written e fs out =
      ((out.0 ≡ ok (flattened d e))
        × (get codec d e.kind e.metadata out.1 ≡ ok (flattened d e))
        × ((kind : Kind) (m : EntityMetadata)
            → same_path (path_of d e.kind e.metadata) (path_of d kind m) ≡ false
            → get codec d kind m out.1 ≡ get codec d kind m fs))
      ⊎ ((c : Error) × (out.0 ≡ err c) × (out.1.files ≡ fs.files))

  write-Written :
      (e : Document B) (fs : FileSystem D)
      → IsLawful
      → Written e fs
          (write_document codec d (generate_id e.kind (flattened d e).metadata) (flattened d e) fs)
  unfolding Written path_of
  write-Written e fs law = elim (Result-cases (codec.marshal (flattened d e))) [
    | inr (c, h) ↦
        subst (Written e fs)
          (sym (
            write_document-err (generate_id e.kind (flattened d e).metadata) (flattened d e) fs c
              h))
          (inr (c, refl, refl))
    | inl (data_, h) ↦
        subst (Written e fs)
          (sym (
            write_document-ok (generate_id e.kind (flattened d e).metadata) (flattened d e) fs data_
              h))
          (inl (
            refl,
            get-written _ e data_ law h (stored data_),
            λ kind m other. get-same fs _ kind m (kept data_ (path_of d kind m) other),
          ))
  ]
    where
      there : FilePath
      there = path_of d e.kind e.metadata

      stored : (data_ : D) → lookup there (write_file there data_ fs).files ≡ some data_
      stored data_ = ground (arith, lookup-write_file there there data_ fs, beq_refl path_eq there)

      kept :
          (data_ : D) (p : FilePath)
          → same_path there p ≡ false
          → lookup p (write_file there data_ fs).files ≡ lookup p fs.files
      kept data_ p other = ground (arith, lookup-write_file there p data_ fs)

  -- Create finds a file under the path of the document and changes nothing, or it writes the
  -- document. The codec reads back what it wrote.
  pub create-Written :
      (e : Document B) (fs : FileSystem D)
      → IsLawful
      → ((exists fs (path_of d e.kind e.metadata) ≡ true)
          × ((c : Error) × (create codec d e fs ≡ (err c, fs))))
        ⊎ ((exists fs (path_of d e.kind e.metadata) ≡ false) × Written e fs (create codec d e fs))
  unfolding create path_of
  create-Written e fs law = elim (Bool-cases (exists fs (path_of d e.kind e.metadata))) [
    | inl x ↦ inl (
      x,
      (key_conflict (show_path (generate_id e.kind (flattened d e).metadata)), rw (x, create) refl),
    )
    | inr x ↦ inr (x, subst (Written e fs) (sym (create-new x)) (write-Written e fs law))
  ]
    where
      create-new :
          exists fs (path_of d e.kind e.metadata) ≡ false
          → create codec d e fs
            ≡ write_document codec d
                (generate_id e.kind (flattened d e).metadata)
                (flattened d e)
                fs
      create-new x = rw (x, create) refl

  -- Upsert writes the document, or it fails and no file changes. The codec reads back what it wrote.
  pub upsert-Written :
      (e : Document B) (fs : FileSystem D) → IsLawful → Written e fs (upsert codec d e fs)
  unfolding upsert
  upsert-Written e fs law = write-Written e fs law

  get-missing :
      (fs : FileSystem D) (kind : Kind) (m : EntityMetadata)
      → lookup (path_of d kind m) fs.files ≡ none
      → get codec d kind m fs
        ≡ err (key_not_found (show_path (generate_id kind (flatten_metadata d.case_sensitive m))))
  unfolding get path_of
  get-missing fs kind m h = ground (arith, h)

  -- Delete finds no file and changes nothing, or it removes the document at its path and no other.
  pub delete_document-removed :
      (kind : Kind) (m : EntityMetadata) (fs : FileSystem D)
      → ((delete_document d kind m fs ≡ (err (key_not_found (show_path (generate_id kind m))), fs))
          × (lookup (build_path d (generate_id kind m)) fs.files ≡ none))
        ⊎ (((delete_document d kind m fs).0 ≡ ok tt)
            × ((k : Kind) (n : EntityMetadata)
                → get codec d k n (delete_document d kind m fs).1 ≡ (
                    if same_path (build_path d (generate_id kind m)) (path_of d k n)
                    then err (
                        key_not_found
                          (show_path (generate_id k (flatten_metadata d.case_sensitive n))))
                    else get codec d k n fs)))
  unfolding delete_document remove_file
  delete_document-removed kind m fs =
      elim (Option-cases (lookup (build_path d (generate_id kind m)) fs.files)) [
        | inl h ↦ inl (rw (h, delete_document) refl, h)
        | inr (x, h) ↦
            inr (rw (h, delete_document) refl, λ k n. rw (h, delete_document) (after k n))
      ]
    where
      gone : FileSystem D
      gone = remove_file (build_path d (generate_id kind m)) fs

      after :
          (k : Kind) (n : EntityMetadata)
          → get codec d k n gone ≡ (
              if same_path (build_path d (generate_id kind m)) (path_of d k n)
              then err
                  (key_not_found (show_path (generate_id k (flatten_metadata d.case_sensitive n))))
              else get codec d k n fs)
      after k n =
          elim (Bool-cases (same_path (build_path d (generate_id kind m)) (path_of d k n))) [
            | inl e ↦ rw e (
                get-missing gone k n (
                  ground (
                    arith,
                    lookup-delete (build_path d (generate_id kind m)) (path_of d k n) fs.files,
                  )))
            | inr e ↦ rw e (
                get-same fs gone k n (
                  ground (
                    arith,
                    lookup-delete (build_path d (generate_id kind m)) (path_of d k n) fs.files,
                  )))
          ]
