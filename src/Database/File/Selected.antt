-- ===== src/Database/File/Selected.antt =====
-- What a query selects, and that nothing of it is left after DeleteByQuery.
use Prim.Native.String.{len}
use perses.Prelude.{
  ◌≡◌, refl, sym, subst, true, false, not, ◌&&◌, List, [], ◌∷◌, none, string_eq, eqb, if◌then◌else◌,
  arith, inl, inr, contains, Bool-cases, beq_refl,
}
use perses.Prelude.GoMap.{GoMap, lookup, delete, keys}
use perses.Prelude.Result.{Error, ok, err, errorf, Result-cases}
use perses.Database.Path.{FilePath, path_eq, same_path, same_path_iff, is_below}
use perses.Database.File.{
  FileSystem, Dao, Codec, Query, Selection, build_query, is_visited, visit, exists, remove_file,
  remove_files, keep_outside, folders_outside, remove_all, remove_selected, delete_by_query,
  read_files, query,
}

module _ {D : Type 0} (d : Dao) (s : Selection) where
  pub contains-visit :
      (files : GoMap FilePath D) (p : FilePath)
      → contains (visit d s files) p ≡ (contains (keys files) p && is_visited d s p)
  unfolding visit contains
  contains-visit [] p = refl
  contains-visit ((q, x) ∷ files) p = ground (arith, contains-visit files p, same_path_iff q p)

  visit-delete :
      (q p : FilePath) (files : GoMap FilePath D)
      → contains (visit d s (delete q files)) p
        ≡ (not (same_path q p) && contains (visit d s files) p)
  unfolding visit contains delete
  visit-delete q p [] = ground arith
  visit-delete q p ((o, x) ∷ files) =
      ground
        (arith, visit-delete q p files, same_path_iff q p, same_path_iff o p, same_path_iff o q)

  pub visit-remove_files :
      (ps : List FilePath) (p : FilePath) (fs : FileSystem D)
      → contains (visit d s (remove_files ps fs).files) p
        ≡ (not (contains ps p) && contains (visit d s fs.files) p)
  unfolding remove_files remove_file contains
  visit-remove_files [] p fs = ground arith
  visit-remove_files (q ∷ ps) p fs =
      ground (arith, visit-remove_files ps p (remove_file q fs), visit-delete q p fs.files)

pub nothing_in : (xs : List FilePath) → ((p : FilePath) → contains xs p ≡ false) → xs ≡ []
unfolding contains
nothing_in [] h = refl
nothing_in (x ∷ xs) h = absurd (ground (arith, h x, same_path_iff x x))

pub lookup-keep_outside :
    {D : Type 0} (root p : FilePath) (files : GoMap FilePath D)
    → lookup p (keep_outside root files) ≡ (if is_below root p then none else lookup p files)
unfolding keep_outside lookup
lookup-keep_outside root p [] = ground arith
lookup-keep_outside root p ((q, x) ∷ files) =
    ground (arith, lookup-keep_outside root p files, same_path_iff q p)

pub contains-folders_outside :
    (root p : FilePath) (ps : List FilePath)
    → contains (folders_outside root ps) p ≡ (not (is_below root p) && contains ps p)
unfolding folders_outside contains
contains-folders_outside root p [] = ground arith
contains-folders_outside root p (q ∷ ps) =
    ground (arith, contains-folders_outside root p ps, same_path_iff q p)

is_below_self : (p : FilePath) → is_below p p ≡ true
unfolding is_below
is_below_self [] = refl
is_below_self (x ∷ p) = ground (arith, is_below_self p, beq_refl string_eq x)

pub exists-remove_all :
    {D : Type 0} (root : FilePath) (fs : FileSystem D) → exists (remove_all root fs) root ≡ false
unfolding exists remove_all
exists-remove_all root fs = ground (
  arith,
  is_below_self root,
  contains-folders_outside root root fs.folders,
  lookup-keep_outside root root fs.files,
)

module _ {B D : Type 0} (codec : Codec B D) (d : Dao) where
  pub query-missing :
      (q : Query) (s : Selection) (fs : FileSystem D)
      → build_query d q ≡ ok s
      → exists fs s.path_folder ≡ false
      → query codec d q fs ≡ ok []
  unfolding query
  query-missing q s fs h x = ground (arith, h)

  pub query-empty :
      (q : Query) (s : Selection) (fs : FileSystem D)
      → build_query d q ≡ ok s
      → visit d s fs.files ≡ []
      → query codec d q fs ≡ ok []
  unfolding query read_files
  query-empty q s fs h x = ground (arith, h)

  selected_gone :
      (q : Query) (s : Selection) (fs : FileSystem D)
      → build_query d q ≡ ok s
      → query codec d q (remove_selected d s fs) ≡ ok []
  unfolding remove_selected
  selected_gone q s fs h = elim (Bool-cases (eqb (len s.prefix) 0)) [
    | inl e ↦
        subst (λ gs. query codec d q gs ≡ ok []) (sym (whole e))
          (query-missing q s (remove_all s.path_folder fs) h (exists-remove_all s.path_folder fs))
    | inr e ↦
        subst (λ gs. query codec d q gs ≡ ok []) (sym (some_files e))
          (query-empty q s (remove_files (visit d s fs.files) fs) h
            (nothing_in _ (λ p. ground (arith, visit-remove_files d s (visit d s fs.files) p fs))))
  ]
    where
      whole : eqb (len s.prefix) 0 ≡ true → remove_selected d s fs ≡ remove_all s.path_folder fs
      whole e = rw (e, remove_selected) refl

      some_files :
          eqb (len s.prefix) 0 ≡ false
          → remove_selected d s fs ≡ remove_files (visit d s fs.files) fs
      some_files e = rw (e, remove_selected) refl

  -- After a DeleteByQuery that succeeded, the same query finds nothing.
  pub query-delete_by_query :
      (q : Query) (fs : FileSystem D)
      → (delete_by_query d q fs).0 ≡ ok tt
      → query codec d q (delete_by_query d q fs).1 ≡ ok []
  unfolding delete_by_query
  query-delete_by_query q fs h = elim (Result-cases (build_query d q)) [
    | inr (c, e) ↦ absurd (failed c e)
    | inl (s, e) ↦ elim (Bool-cases (exists fs s.path_folder)) [
      | inl x ↦
          subst (λ gs. query codec d q gs ≡ ok []) (sym (there s e x)) (selected_gone q s fs e)
      | inr x ↦
          subst (λ gs. query codec d q gs ≡ ok []) (sym (missing s e x)) (query-missing q s fs e x)
    ]
  ]
    where
      failed : (c : Error) → build_query d q ≡ err c → ⊥
      failed c e =
          let k : (delete_by_query d q fs).0 ≡ err (errorf "unable to build the query") =
            rw (e, delete_by_query) refl in
          ground (arith, k)

      there :
          (s : Selection)
          → build_query d q ≡ ok s
          → exists fs s.path_folder ≡ true
          → (delete_by_query d q fs).1 ≡ remove_selected d s fs
      there s e x = rw (e, x, delete_by_query) refl

      missing :
          (s : Selection)
          → build_query d q ≡ ok s
          → exists fs s.path_folder ≡ false
          → (delete_by_query d q fs).1 ≡ fs
      missing s e x = rw (e, x, delete_by_query) refl
