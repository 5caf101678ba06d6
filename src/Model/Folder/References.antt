-- ===== src/Model/Folder/References.antt =====
-- The loop over the items of a folder ends, and it finds a dashboard that is referenced twice.
use perses.Prelude.{
  ℕ, zero, suc, ◌+◌, ◌≤◌, ◌≡◌, refl, sym, subst, String, true, false, List, [], ◌∷◌, ◌++◌, Option,
  some, ◌==◌, string_eq, arith, ◌⊎◌, inl, inr, contains, count, count-append, In-count_pos,
  contains→In, beq_refl, count-not_contains, Bool-cases,
}
use perses.Prelude.Result.{Result, Error, ok, err, errorf}
use perses.Model.Folder.{
  FolderItem, folder_item, Items, no_items, more_items, items_list, Folder, reference_loop,
  size_item, size_items, validate,
}

-- The names of the dashboards that the tree references, a dashboard as often as it is referenced.
unfoldable mutual
  pub references_item : FolderItem → List String
  references_item (folder_item kind name items) = elim (kind == "Dashboard") [
    | true ↦ name ∷ []
    | false ↦ references items
  ]

  pub references : Items → List String
  references no_items = []
  references (more_items x xs) = references_item x ++ references xs

references_list : List FolderItem → List String
references_list [] = []
references_list (x ∷ xs) = references_item x ++ references_list xs

size_list : List FolderItem → ℕ
size_list [] = 0
size_list (x ∷ xs) = size_item x + size_list xs

size_list-append : (xs ys : List FolderItem) → size_list (xs ++ ys) ≡ size_list xs + size_list ys
unfolding size_list
size_list-append [] ys = omega arith
size_list-append (x ∷ xs) ys = omega (arith, size_list-append xs ys)

size_items-list : (xs : Items) → size_list (items_list xs) ≡ size_items xs
unfolding size_list items_list size_items
size_items-list no_items = refl
size_items-list (more_items x xs) = omega (arith, size_items-list xs)

references-append :
    (a : String) (xs ys : List FolderItem)
    → count a (references_list (xs ++ ys))
      ≡ count a (references_list xs) + count a (references_list ys)
unfolding references_list count
references-append a [] ys = omega arith
references-append a (x ∷ xs) ys = omega (
  arith,
  references-append a xs ys,
  count-append a (references_item x) (references_list (xs ++ ys)),
  count-append a (references_item x) (references_list xs),
)

references-list :
    (a : String) (xs : Items) → count a (references_list (items_list xs)) ≡ count a (references xs)
unfolding references_list items_list references
references-list a no_items = refl
references-list a (more_items x xs) = omega (
  arith,
  references-list a xs,
  count-append a (references_item x) (references_list (items_list xs)),
  count-append a (references_item x) (references xs),
)

-- No dashboard is referenced twice, those of the set included.
Valid : List String → List FolderItem → Type 0
Valid set xs = (a : String) → count a set + count a (references_list xs) ≤ 1

abbrev Outcome : Type 0 → Option (Result (Unit {0})) → Type 0
Outcome V o = ((o ≡ some (ok tt)) × V) ⊎ (((e : Error) × (o ≡ some (err e))) × (V → ⊥))

Outcome-iff :
    {V W : Type 0} (o : Option (Result (Unit {0}))) → (V → W) → (W → V) → Outcome V o → Outcome W o
Outcome-iff o there back (inl (h, v)) = inl (h, there v)
Outcome-iff o there back (inr (h, wrong)) = inr (h, λ w. wrong (back w))

reference_loop-Outcome :
    (fuel : ℕ) (xs : List FolderItem) (set : List String)
    → size_list xs ≤ fuel
    → ((a : String) → count a set ≤ 1)
    → Outcome (Valid set xs) (reference_loop fuel xs set)
unfolding reference_loop Valid references_list size_list references_item size_item count
reference_loop-Outcome fuel [] set enough one = inl (refl, λ a. omega (arith, one a))
reference_loop-Outcome zero (folder_item kind name items ∷ xs) set enough one = absurd (omega arith)
reference_loop-Outcome (suc fuel) (folder_item kind name items ∷ xs) set enough one =
    elim (Bool-cases (kind == "Dashboard")) [
      | inl d ↦ elim (Bool-cases (contains set name)) [
        | inl c ↦ subst (Outcome (Valid set (folder_item kind name items ∷ xs))) (sym (twice d c)) (
            inr (
              (errorf "dashboard is referenced multiple times in the folder", refl),
              λ v. ground (
                arith,
                v name,
                beq_refl string_eq name,
                In-count_pos name set (contains→In name set c),
              ),
            ))
        | inr c ↦ subst (Outcome (Valid set (folder_item kind name items ∷ xs))) (sym (next d c)) (
            Outcome-iff _ (λ v a. ground (arith, v a)) (λ v a. ground (arith, v a))
              (reference_loop-Outcome fuel xs (name ∷ set) (omega (arith, enough)) (λ a.
                ground (arith, one a, string_eq.beq_iff name a, count-not_contains name set c))))
      ]
      | inr d ↦ subst (Outcome (Valid set (folder_item kind name items ∷ xs))) (sym (folder d)) (
          Outcome-iff _ (λ v a. ground (arith, v a, spread a d))
            (λ v a. ground (arith, v a, spread a d))
            (reference_loop-Outcome fuel (xs ++ items_list items) set
              (omega (arith, enough, size_list-append xs (items_list items), size_items-list items))
              one))
    ]
  where
    twice :
        (kind == "Dashboard") ≡ true
        → contains set name ≡ true
        → reference_loop (suc fuel) (folder_item kind name items ∷ xs) set
          ≡ some (err (errorf "dashboard is referenced multiple times in the folder"))
    twice d c = rw (d, c, reference_loop) refl

    next :
        (kind == "Dashboard") ≡ true
        → contains set name ≡ false
        → reference_loop (suc fuel) (folder_item kind name items ∷ xs) set
          ≡ reference_loop fuel xs (name ∷ set)
    next d c = rw (d, c, reference_loop) refl

    folder :
        (kind == "Dashboard") ≡ false
        → reference_loop (suc fuel) (folder_item kind name items ∷ xs) set
          ≡ reference_loop fuel (xs ++ items_list items) set
    folder d = rw (d, reference_loop) refl

    spread :
        (a : String)
        → (kind == "Dashboard") ≡ false
        → count a (references_list (xs ++ items_list items))
          ≡ count a (references_list (folder_item kind name items ∷ xs))
    spread a d = ground (
      arith,
      references-append a xs (items_list items),
      references-list a items,
      count-append a (references items) (references_list xs),
    )

none_twice : (a : String) → count a [] ≤ 1
unfolding count
none_twice a = omega arith

Valid-references :
    (xs : Items) → Valid [] (items_list xs) → (a : String) → count a (references xs) ≤ 1
unfolding Valid count
Valid-references xs v a = omega (arith, v a, references-list a xs)

references-Valid :
    (xs : Items) → ((a : String) → count a (references xs) ≤ 1) → Valid [] (items_list xs)
unfolding Valid count
references-Valid xs v a = omega (arith, v a, references-list a xs)

whole_loop :
    (xs : Items)
    → Outcome (Valid [] (items_list xs)) (reference_loop (size_items xs) (items_list xs) [])
whole_loop xs =
    reference_loop-Outcome (size_items xs) (items_list xs) [] (omega (arith, size_items-list xs))
      none_twice

-- Decoding a folder ends for every tree of items: it accepts one of the kind Folder whose tree
-- references no dashboard twice, and refuses any other.
pub validate_lem :
    (f : Folder)
    → ((validate f ≡ some (ok f))
        × (f.kind ≡ "Folder")
        × ((a : String) → count a (references f.spec.items) ≤ 1))
      ⊎ (((e : Error) × (validate f ≡ some (err e)))
          × (f.kind ≡ "Folder" → ((a : String) → count a (references f.spec.items) ≤ 1) → ⊥))
unfolding validate
validate_lem f = elim (Bool-cases (f.kind == "Folder")) [
  | inr k ↦ inr (
    (errorf "invalid kind for a Folder type", rw (k, validate) refl),
    λ same v. ground (arith, string_eq.beq_iff f.kind "Folder"),
  )
  | inl k ↦ elim (whole_loop f.spec.items) [
    | inl (h, v) ↦ inl (
      rw (k, h, validate) refl,
      (string_eq.beq_iff f.kind "Folder").0 k,
      Valid-references f.spec.items v,
    )
    | inr ((e, h), wrong) ↦
        inr ((e, rw (k, h, validate) refl), λ same v. wrong (references-Valid f.spec.items v))
  ]
]
