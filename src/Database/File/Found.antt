-- ===== src/Database/File/Found.antt =====
-- The documents that a query returns.
use Prim.Native.String.{len, ◌++◌ as append_text}
use Prim.Native.String.append
use perses.Prelude.Text.{empty_text, has_prefix, has_prefix_iff}
use perses.Prelude.{
  String, eqb, ◌||◌, ◌++◌, string_eq, ◌≡◌, refl, sym, ap, ◌∙◌, subst, true, false, List, [], ◌∷◌,
  some, arith, ◌⊎◌, inl, inr, ◌↔◌, In, contains→In, In→contains, Bool-cases, Option-cases,
}
use perses.Prelude.GoMap.{GoMap, lookup, contains-keys}
use perses.Prelude.Result.{ok, >>=-eq-ok, ◌>>=◌}
use perses.Model.Kind.{Kind}
use perses.Toolbox.Binding.{ok_inj}
use perses.Database.Path.{FilePath, path_eq, is_below_iff, base, extension_of, file_name}
use perses.Database.File.{
  Document, FileSystem, Dao, Codec, Query, Selection, kind_of, build_query, is_visited, visit,
  exists, read_files, query,
}
use perses.Database.File.Selected.{contains-visit}

-- What a query selects: a file below its folder, with the extension of the database, whose name
-- begins with the prefix.
pub record IsSelected (d : Dao) (s : Selection) (p : FilePath) : Type 0 where
  pub below : (rest : FilePath) × (p ≡ s.path_folder ++ rest)
  pub extended : extension_of (base p) ≡ append_text "." d.extension
  pub prefixed : (rest : String) × (base p ≡ append_text s.prefix rest)

prefixed_iff :
    (s p : String)
    → ((eqb (len p) 0 || has_prefix s p) ≡ true) ↔ ((rest : String) × (s ≡ append_text p rest))
prefixed_iff s p = (
  λ h. elim (Bool-cases (eqb (len p) 0)) [
    | inl z ↦ (s, rw (empty_text p z) (sym (append.nil s)))
    | inr z ↦ (has_prefix_iff s p).0 (ground arith)
  ],
  λ t. ground (arith, (has_prefix_iff s p).1 t),
)

dotted : (extension : String) → file_name "" extension ≡ append_text "." extension
unfolding file_name
dotted extension = append.nil (append_text "." extension)

is_visited-IsSelected :
    (d : Dao) (s : Selection) (p : FilePath) → (is_visited d s p ≡ true) ↔ IsSelected d s p
unfolding is_visited
is_visited-IsSelected d s p = (
  λ h. record {
    below = (is_below_iff s.path_folder p).0 (ground arith);
    extended =
        (string_eq.beq_iff (extension_of (base p)) (file_name "" d.extension)).0 (ground arith)
        ∙ dotted d.extension;
    prefixed = (prefixed_iff (base p) s.prefix).0 (ground arith);
  },
  λ v. ground (
    arith,
    (is_below_iff s.path_folder p).1 v.below,
    (string_eq.beq_iff (extension_of (base p)) (file_name "" d.extension)).1
        (v.extended ∙ sym (dotted d.extension)),
    (prefixed_iff (base p) s.prefix).1 v.prefixed,
  ),
)

module _ {B D : Type 0} (codec : Codec B D) (d : Dao) where
  -- a document of the file `p`, as it is read
  abbrev pub IsStored : Kind → FileSystem D → FilePath → Document B → Type 0
  IsStored kind fs p e = (x : D) × (lookup p fs.files ≡ some x) × (codec.unmarshal kind x ≡ ok e)

  abbrev IsRead : Kind → List FilePath → FileSystem D → Document B → Type 0
  IsRead kind ps fs e = (p : FilePath) × In p ps × IsStored kind fs p e

  same_document :
      (kind : Kind) (fs : FileSystem D) {q : FilePath} {e : Document B} (x : D) (p : FilePath)
      (y : D) (e0 : Document B)
      → lookup q fs.files ≡ some x
      → codec.unmarshal kind x ≡ ok e0
      → p ≡ q
      → lookup p fs.files ≡ some y
      → codec.unmarshal kind y ≡ ok e
      → e ≡ e0
  same_document x p y e0 f u same g v = cc

  read_one :
      (kind : Kind) (q : FilePath) (ps : List FilePath) (fs : FileSystem D)
      (docs : List (Document B)) (x : D)
      → lookup q fs.files ≡ some x
      → read_files codec d kind (q ∷ ps) fs ≡ ok docs
      → (e : Document B) × (rest : List (Document B)) × (codec.unmarshal kind x ≡ ok e)
        × (read_files codec d kind ps fs ≡ ok rest)
        × (e ∷ rest ≡ docs)
  unfolding read_files
  read_one kind q ps fs docs x f h =
      let (e, u, h1) = >>=-eq-ok (codec.unmarshal kind x) _ (step f h) in
      let (rest, r, h2) = >>=-eq-ok (read_files codec d kind ps fs) _ h1 in
      (e, rest, u, r, ok_inj _ _ h2)
    where
      step :
          lookup q fs.files ≡ some x
          → read_files codec d kind (q ∷ ps) fs ≡ ok docs
          → (codec.unmarshal kind x >>= λ e.
              read_files codec d kind ps fs >>= λ rest. ok (e ∷ rest))
            ≡ ok docs
      step f h = rw (f, read_files) at h

  In-read_files :
      (kind : Kind) (ps : List FilePath) (fs : FileSystem D) (docs : List (Document B))
      → read_files codec d kind ps fs ≡ ok docs
      → (e : Document B) → In e docs ↔ IsRead kind ps fs e
  unfolding read_files
  In-read_files kind [] fs docs h e =
      (λ i. absurd (subst (λ xs. In e xs) (sym (ok_inj _ _ h)) i), λ (p, i, s). absurd i)
  In-read_files kind (q ∷ ps) fs docs h e = elim (Option-cases (lookup q fs.files)) [
    | inl f ↦ absurd (ground (arith, f))
    | inr (x, f) ↦
        let (e0, rest, u, r, same) = read_one kind q ps fs docs x f h in
        subst (λ ds. In e ds ↔ IsRead kind (q ∷ ps) fs e) same
          (both x f e0 rest u (In-read_files kind ps fs rest r e))
  ]
    where
      both :
          (x : D)
          → lookup q fs.files ≡ some x
          → (e0 : Document B) (rest : List (Document B)) → codec.unmarshal kind x ≡ ok e0
          → (In e rest ↔ IsRead kind ps fs e)
          → In e (e0 ∷ rest) ↔ IsRead kind (q ∷ ps) fs e
      both x f e0 rest u ih = (there, back)
        where
          there : In e (e0 ∷ rest) → IsRead kind (q ∷ ps) fs e
          there (inl same) = (q, inl refl, (x, f, u ∙ ap ok (sym same)))
          there (inr j) = let (p, k, (y, g, v)) = ih.0 j in (p, inr k, (y, g, v))

          back : IsRead kind (q ∷ ps) fs e → In e (e0 ∷ rest)
          back (p, inl same, (y, g, v)) = inl (same_document kind fs x p y e0 f u same g v)
          back (p, inr k, (y, g, v)) = inr (ih.1 (p, k, (y, g, v)))

  In-visit :
      (s : Selection) (files : GoMap FilePath D) (p : FilePath) (x : D)
      → lookup p files ≡ some x
      → is_visited d s p ≡ true
      → In p (visit d s files)
  In-visit s files p x f v =
      contains→In p (visit d s files)
        (ground (arith, contains-visit d s files p, contains-keys p files))

  -- A query of a folder that does not exist returns nothing; otherwise a document is returned exactly
  -- when it is stored in a file below the folder whose name begins with the prefix that is asked for
  -- and whose extension is that of the database.
  pub query-found :
      (q : Query) (s : Selection) (fs : FileSystem D) (docs : List (Document B))
      → build_query d q ≡ ok s
      → query codec d q fs ≡ ok docs
      → ((exists fs s.path_folder ≡ false) × (docs ≡ []))
        ⊎ ((e : Document B)
            → In e docs ↔ ((p : FilePath) × IsSelected d s p × IsStored (kind_of q) fs p e))
  unfolding query
  query-found q s fs docs b h = elim (Bool-cases (exists fs s.path_folder)) [
    | inr x ↦ inl (x, sym (ok_inj _ _ (missing x)))
    | inl x ↦ inr (λ e. (there e x, back e x))
  ]
    where
      missing : exists fs s.path_folder ≡ false → ok [] ≡ ok docs
      missing x = rw (b, x, query) at h

      read :
          exists fs s.path_folder ≡ true
          → read_files codec d (kind_of q) (visit d s fs.files) fs ≡ ok docs
      read x = rw (b, x, query) at h

      there :
          (e : Document B)
          → exists fs s.path_folder ≡ true
          → In e docs
          → (p : FilePath) × IsSelected d s p × IsStored (kind_of q) fs p e
      there e x i =
          let (p, j, (y, g, v)) = (In-read_files (kind_of q) _ fs docs (read x) e).0 i in
          (
            p,
            (is_visited-IsSelected d s p).0
                (ground (arith, contains-visit d s fs.files p, In→contains p _ j)),
            (y, g, v),
          )

      back :
          (e : Document B)
          → exists fs s.path_folder ≡ true
          → ((p : FilePath) × IsSelected d s p × IsStored (kind_of q) fs p e)
          → In e docs
      back e x (p, w, (y, g, v)) =
          (In-read_files (kind_of q) _ fs docs (read x) e).1
            (p, In-visit s fs.files p y g ((is_visited-IsSelected d s p).1 w), (y, g, v))
