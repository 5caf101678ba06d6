-- ===== src/Database/File/Shrinking.antt =====
-- Deletions only take away, so that what a query no longer finds stays away.
use Prim.Native.String.{len}
use perses.Prelude.{
  ◌≡◌, refl, sym, subst, ap, ◌∙◌, Bool, true, false, List, [], ◌∷◌, eqb, arith, ◌⊎◌, inl, inr,
  contains, Bool-cases, Option-cases,
}
use perses.Prelude.GoMap.{lookup, delete, lookup-delete, keys, contains-keys}
use perses.Prelude.Result.{Result, Error, ok, err, errorf, Result-cases}
use perses.Model.Kind.{Kind}
use perses.Toolbox.{EntityMetadata}
use perses.Toolbox.Binding.{ok_inj}
use perses.Database.Path.{FilePath, path_eq}
use perses.Database.File.{
  FileSystem, Dao, Codec, Query, Selection, build_query, visit, exists, remove_file, remove_files,
  remove_all, remove_selected, keep_outside, delete_by_query, delete_document, generate_id,
  build_path, query,
}
use perses.Database.File.Selected.{
  contains-visit, visit-remove_files, nothing_in, lookup-keep_outside, contains-folders_outside,
  exists-remove_all, query-missing, query-empty,
}

-- Each folder and file after was there before.
pub record Shrinks {D : Type 0} (fs gs : FileSystem D) : Type 0 where
  pub existed : (p : FilePath) → exists gs p ≡ true → exists fs p ≡ true
  pub had_file :
      (p : FilePath) → contains (keys gs.files) p ≡ true → contains (keys fs.files) p ≡ true

module _ {D : Type 0} where
  pub Shrinks-same : (fs : FileSystem D) → Shrinks fs fs
  Shrinks-same fs = record { existed = λ p h. h; had_file = λ p h. h }

  pub Shrinks-then : (fs gs hs : FileSystem D) → Shrinks fs gs → Shrinks gs hs → Shrinks fs hs
  Shrinks-then fs gs hs a b = record {
    existed = λ p h. a.existed p (b.existed p h);
    had_file = λ p h. a.had_file p (b.had_file p h);
  }

  remove_file-Shrinks : (q : FilePath) (fs : FileSystem D) → Shrinks fs (remove_file q fs)
  unfolding remove_file exists
  remove_file-Shrinks q fs = record {
    existed = λ p h. ground (arith, lookup-delete q p fs.files);
    had_file = λ p h. ground (
      arith,
      lookup-delete q p fs.files,
      contains-keys p (delete q fs.files),
      contains-keys p fs.files,
    );
  }

  remove_files-Shrinks : (ps : List FilePath) (fs : FileSystem D) → Shrinks fs (remove_files ps fs)
  unfolding remove_files
  remove_files-Shrinks [] fs = Shrinks-same fs
  remove_files-Shrinks (p ∷ ps) fs =
      Shrinks-then _ _ _ (remove_file-Shrinks p fs) (remove_files-Shrinks ps (remove_file p fs))

  remove_all-Shrinks : (root : FilePath) (fs : FileSystem D) → Shrinks fs (remove_all root fs)
  unfolding remove_all exists
  remove_all-Shrinks root fs = record {
    existed = λ p h.
        ground
          (arith, lookup-keep_outside root p fs.files, contains-folders_outside root p fs.folders);
    had_file = λ p h. ground (
      arith,
      lookup-keep_outside root p fs.files,
      contains-keys p (keep_outside root fs.files),
      contains-keys p fs.files,
    );
  }

  remove_selected-Shrinks :
      (d : Dao) (s : Selection) (fs : FileSystem D) → Shrinks fs (remove_selected d s fs)
  unfolding remove_selected
  remove_selected-Shrinks d s fs = elim (Bool-cases (eqb (len s.prefix) 0)) [
    | inl e ↦ rw e (remove_all-Shrinks s.path_folder fs)
    | inr e ↦ rw e (remove_files-Shrinks (visit d s fs.files) fs)
  ]

  -- What DeleteByQuery does on each branch.
  pub delete_by_query-cases :
      (d : Dao) (q : Query) (fs : FileSystem D)
      → ((c : Error) × (build_query d q ≡ err c)
          × (delete_by_query d q fs ≡ (err (errorf "unable to build the query"), fs)))
        ⊎ ((s : Selection) × (build_query d q ≡ ok s)
            × (((exists fs s.path_folder ≡ true)
                  × (delete_by_query d q fs ≡ (ok tt, remove_selected d s fs)))
                ⊎ ((exists fs s.path_folder ≡ false) × (delete_by_query d q fs ≡ (ok tt, fs)))))
  unfolding delete_by_query
  delete_by_query-cases d q fs = elim (Result-cases (build_query d q)) [
    | inr (c, e) ↦ inl (c, e, rw (e, delete_by_query) refl)
    | inl (s, e) ↦ elim (Bool-cases (exists fs s.path_folder)) [
      | inl x ↦ inr (s, e, inl (x, rw (e, x, delete_by_query) refl))
      | inr x ↦ inr (s, e, inr (x, rw (e, x, delete_by_query) refl))
    ]
  ]

  pub delete_by_query-Shrinks :
      (d : Dao) (q : Query) (fs : FileSystem D) → Shrinks fs (delete_by_query d q fs).1
  delete_by_query-Shrinks d q fs = elim (delete_by_query-cases d q fs) [
    | inl (c, e, h) ↦ subst (λ out. Shrinks fs out.1) (sym h) (Shrinks-same fs)
    | inr (s, e, inl (x, h)) ↦
        subst (λ out. Shrinks fs out.1) (sym h) (remove_selected-Shrinks d s fs)
    | inr (s, e, inr (x, h)) ↦ subst (λ out. Shrinks fs out.1) (sym h) (Shrinks-same fs)
  ]

  pub delete_document-Shrinks :
      (d : Dao) (kind : Kind) (m : EntityMetadata) (fs : FileSystem D)
      → Shrinks fs (delete_document d kind m fs).1
  unfolding delete_document
  delete_document-Shrinks d kind m fs =
      elim (Option-cases (lookup (build_path d (generate_id kind m)) fs.files)) [
        | inl e ↦ rw (e, delete_document) (Shrinks-same fs)
        | inr (x, e) ↦
            rw (e, delete_document) (remove_file-Shrinks (build_path d (generate_id kind m)) fs)
      ]

  -- The query selects nothing.
  pub Empty : Dao → Query → FileSystem D → Type 0
  Empty d q fs =
      (s : Selection)
      → build_query d q ≡ ok s
      → (exists fs s.path_folder ≡ false)
        ⊎ ((p : FilePath) → contains (visit d s fs.files) p ≡ false)

  pub Empty-Shrinks :
      (d : Dao) (q : Query) (fs gs : FileSystem D) → Shrinks fs gs → Empty d q fs → Empty d q gs
  unfolding Empty
  Empty-Shrinks d q fs gs h e s b = elim (e s b) [
    | inl x ↦ inl (missing (h.existed s.path_folder) x)
    | inr none_visited ↦ inr (λ p. ground (
      arith,
      none_visited p,
      contains-visit d s fs.files p,
      contains-visit d s gs.files p,
      h.had_file p,
    ))
  ]
    where
      missing : {x y : Bool} → (y ≡ true → x ≡ true) → x ≡ false → y ≡ false
      missing f n = ground (arith, f)

  remove_selected-Empty :
      (d : Dao) (s : Selection) (fs : FileSystem D)
      → (exists (remove_selected d s fs) s.path_folder ≡ false)
        ⊎ ((p : FilePath) → contains (visit d s (remove_selected d s fs).files) p ≡ false)
  unfolding remove_selected
  remove_selected-Empty d s fs = elim (Bool-cases (eqb (len s.prefix) 0)) [
    | inl e ↦ inl (rw (e, remove_selected) (exists-remove_all s.path_folder fs))
    | inr e ↦ inr (λ p. rw (e, remove_selected) (gone p))
  ]
    where
      gone :
          (p : FilePath)
          → contains (visit d s (remove_files (visit d s fs.files) fs).files) p ≡ false
      gone p = ground (arith, visit-remove_files d s (visit d s fs.files) p fs)

  pub delete_by_query-Empty :
      (d : Dao) (q : Query) (fs : FileSystem D)
      → (delete_by_query d q fs).0 ≡ ok tt
      → Empty d q (delete_by_query d q fs).1
  unfolding Empty
  delete_by_query-Empty d q fs h s b = elim (delete_by_query-cases d q fs) [
    | inl (c, e, k) ↦ absurd (wrong (sym e ∙ b))
    | inr (t, e, inl (x, k)) ↦ subst (Gone s) (sym k) (
        subst (λ u. Gone u (ok tt, remove_selected d t fs)) (ok_inj t s (sym e ∙ b))
          (remove_selected-Empty d t fs))
    | inr (t, e, inr (x, k)) ↦
        subst (Gone s) (sym k)
          (inl (ap (λ u. exists fs u.path_folder) (sym (ok_inj t s (sym e ∙ b))) ∙ x))
  ]
    where
      wrong : {c : Error} → err c ≡ ok s → ⊥
      wrong k = cc

      Gone : Selection → Result (Unit {0}) × FileSystem D → Type 0
      Gone t out =
          (exists out.1 t.path_folder ≡ false)
          ⊎ ((p : FilePath) → contains (visit d t out.1.files) p ≡ false)

pub Empty-query :
    {B D : Type 0} (codec : Codec B D) (d : Dao) (q : Query) (s : Selection) (fs : FileSystem D)
    → build_query d q ≡ ok s
    → Empty d q fs
    → query codec d q fs ≡ ok []
unfolding Empty
Empty-query codec d q s fs b e = elim (e s b) [
  | inl x ↦ query-missing codec d q s fs b x
  | inr none_visited ↦ query-empty codec d q s fs b (nothing_in (visit d s fs.files) none_visited)
]
