-- ===== src/Database/File/Keys.antt =====
-- Different resources have different files.
use Prim.Native.String.{◌++◌ as append_text}
use perses.Prelude.{
  String, ◌≡◌, refl, sym, ◌∙◌, ap, Bool, true, not, ◌&&◌, ◌||◌, List, [], ◌∷◌, ◌++◌, ◌==◌,
  string_eq, beq_refl, false, eqb, contains, arith,
}
use perses.Prelude.GoMap.{lookup}
use perses.Model.Kind.{Kind, kinds, plural_kind}
use perses.Toolbox.{EntityMetadata, plain, in_project}
use Prim.Native.Char.{Char, code}
use text.Mathlib.TextLemmas.{cons≢nil, head-eq_of_cons-eq, tail-eq_of_cons-eq}
use Prim.Native.String.append
use perses.Database.Path.{
  FilePath, add_char, elements, all_elements, step, clean, join, with_extension, file_name,
  file_name_inj,
}
use perses.Database.File.{Dao, generate_id, build_path}

-- the names that identify a resource within its kind
unfoldable pub parts : EntityMetadata → List String
parts (plain m) = m.name ∷ []
parts (in_project m) = m.project ∷ m.name ∷ []

no_slash : String → Bool
no_slash String.[] = true
no_slash (String.◌∷◌ c s) = not (eqb (code c) b'/') && no_slash s

-- A name of one element that stays as it is.
unfoldable pub is_name : String → Bool
unfolding no_slash
is_name x = no_slash x && not (x == "") && not (x == ".") && not (x == "..")

unfoldable pub all_names : List String → Bool
all_names [] = true
all_names (x ∷ xs) = is_name x && all_names xs

elements-no_slash : (x : String) → no_slash x ≡ true → elements x ≡ x ∷ []
unfolding elements no_slash add_char
elements-no_slash String.[] h = refl
elements-no_slash (String.◌∷◌ c s) h =
    let slash : eqb (code c) b'/' ≡ false = ground arith in
    rw (slash, elements-no_slash s (ground arith)) refl

all_elements-all_names : (xs : List String) → all_names xs ≡ true → all_elements xs ≡ xs
unfolding all_elements all_names is_name
all_elements-all_names [] h = refl
all_elements-all_names (x ∷ xs) h =
    rw (elements-no_slash x (ground arith), all_elements-all_names xs (ground arith)) refl

-- elements that a clean path goes on with
all_kept : List String → Bool
all_kept [] = true
all_kept (x ∷ xs) = not (x == "") && not (x == ".") && not (x == "..") && all_kept xs

append_nil : (above : FilePath) → above ++ [] ≡ above
append_nil [] = refl
append_nil (y ∷ above) = ap (λ p. y ∷ p) (append_nil above)

append_one :
    (above : FilePath) (x : String) (xs : List String) → (above ++ x ∷ []) ++ xs ≡ above ++ x ∷ xs
append_one [] x xs = refl
append_one (y ∷ above) x xs = ap (λ p. y ∷ p) (append_one above x xs)

clean-all_kept :
    (above : FilePath) (xs : List String) → all_kept xs ≡ true → clean above xs ≡ above ++ xs
unfolding clean step all_kept
clean-all_kept above [] h = sym (append_nil above)
clean-all_kept above (x ∷ xs) h =
    let here : step above x ≡ above ++ x ∷ [] = ground arith in
    rw here (clean-all_kept (above ++ x ∷ []) xs (ground arith) ∙ append_one above x xs)

all_names-all_kept : (xs : List String) → all_names xs ≡ true → all_kept xs ≡ true
unfolding all_names all_kept is_name
all_names-all_kept [] h = refl
all_names-all_kept (x ∷ xs) h = ground (arith, all_names-all_kept xs)

not_empty : (s e : String) → append_text s (append_text "." e) ≡ "" → ⊥
not_empty String.[] e h = cons≢nil (sym (append.nil (append_text "." e) ∙ append.cons "." "" e) ∙ h)
not_empty (String.◌∷◌ d s) e h = cons≢nil (sym (append.cons d s (append_text "." e)) ∙ h)

-- A name with an extension is no "..", unless the name is ".".
not_dots :
    (c : Char) (s e : String)
    → (String.◌∷◌ c s ≡ "." → ⊥)
    → append_text (String.◌∷◌ c s) (append_text "." e) ≡ ".."
    → ⊥
not_dots c String.[] e other h = other (
    ap (λ x. String.◌∷◌ x "") (head-eq_of_cons-eq (sym (append.cons c "" (append_text "." e)) ∙ h)))
not_dots c (String.◌∷◌ d s) e other h = not_empty s e (
    tail-eq_of_cons-eq (
      sym (append.cons d s (append_text "." e))
      ∙ tail-eq_of_cons-eq (sym (append.cons c (String.◌∷◌ d s) (append_text "." e)) ∙ h)))

file_name-kept : (x e : String) → is_name x ≡ true → all_kept (file_name x e ∷ []) ≡ true
unfolding is_name all_kept file_name
file_name-kept String.[] e h = absurd (ground (arith, beq_refl string_eq ""))
file_name-kept (String.◌∷◌ c s) e h =
    let x = String.◌∷◌ c s in
    let name = append_text x (append_text "." e) in
    ground (
      arith,
      not_empty x e,
      λ (q : name ≡ ".").
          not_empty s e (tail-eq_of_cons-eq (sym (append.cons c s (append_text "." e)) ∙ q)),
      not_dots c s e,
      string_eq.beq_iff x ".",
      string_eq.beq_iff name "",
      string_eq.beq_iff name ".",
      string_eq.beq_iff name "..",
    )

with_extension-all_kept :
    (e x : String) (xs : List String)
    → all_names (x ∷ xs) ≡ true
    → all_kept (with_extension e (x ∷ xs)) ≡ true
unfolding with_extension all_names all_kept is_name
with_extension-all_kept e x [] h = file_name-kept x e (ground arith)
with_extension-all_kept e x (y ∷ xs) h = ground (arith, with_extension-all_kept e y xs)

generate_id-parts :
    (k : Kind) (m : EntityMetadata) → generate_id k m ≡ join [] (plural_kind k ∷ parts m)
unfolding generate_id parts
generate_id-parts k (plain m) = refl
generate_id-parts k (in_project m) = refl

-- The file of a resource, when its kind and its names are names.
build_path-parts :
    (d : Dao) (k : Kind) (m : EntityMetadata)
    → all_names (plural_kind k ∷ parts m) ≡ true
    → build_path d (generate_id k m)
      ≡ d.folder ++ with_extension d.extension (plural_kind k ∷ parts m)
unfolding build_path join
build_path-parts d k m h =
    rw
      (
        generate_id-parts k m,
        all_elements-all_names (plural_kind k ∷ parts m) h,
        clean-all_kept [] (plural_kind k ∷ parts m) (all_names-all_kept _ h),
      )
      (clean-all_kept d.folder _ (with_extension-all_kept d.extension (plural_kind k) (parts m) h))

append_cancel : (xs ys zs : List String) → xs ++ ys ≡ xs ++ zs → ys ≡ zs
append_cancel [] ys zs h = h
append_cancel (x ∷ xs) ys zs h = append_cancel xs ys zs (tail x _ _ h)
  where
    tail : (x : String) (a b : List String) → x ∷ a ≡ x ∷ b → a ≡ b
    tail x a b h = cc

with_extension_inj :
    (e x y : String) (xs ys : List String)
    → with_extension e (x ∷ xs) ≡ with_extension e (y ∷ ys)
    → x ∷ xs ≡ y ∷ ys
unfolding with_extension
with_extension_inj e x y [] [] h = ground (arith, file_name_inj x y e)
with_extension_inj e x y [] (b ∷ []) h = cc
with_extension_inj e x y [] (b ∷ c ∷ ys) h = cc
with_extension_inj e x y (a ∷ []) [] h = cc
with_extension_inj e x y (a ∷ c ∷ xs) [] h = cc
with_extension_inj e x y (a ∷ xs) (b ∷ ys) h = ground (arith, with_extension_inj e a b xs ys)

-- No two kinds share a plural.
plurals_apart : Kind → List Kind → Bool
plurals_apart k [] = true
plurals_apart k (j ∷ js) = (not (plural_kind k == plural_kind j) || k == j) && plurals_apart k js

all_apart : List Kind → Bool
all_apart [] = true
all_apart (k ∷ ks) = plurals_apart k kinds && all_apart ks

kinds_apart : all_apart kinds ≡ true
unfolding all_apart plurals_apart plural_kind lookup
kinds_apart = refl

plurals_apart-contains :
    (k j : Kind) (js : List Kind)
    → plurals_apart k js ≡ true
    → contains js j ≡ true
    → plural_kind k ≡ plural_kind j
    → k ≡ j
unfolding plurals_apart contains
plurals_apart-contains k j [] h c e = cc
plurals_apart-contains k j (i ∷ js) h c e = ground (
  arith,
  plurals_apart-contains k j js,
  string_eq.beq_iff i j,
  string_eq.beq_iff k i,
  string_eq.beq_iff (plural_kind k) (plural_kind i),
)

all_apart-contains :
    (ks : List Kind) (k : Kind)
    → all_apart ks ≡ true
    → contains ks k ≡ true
    → plurals_apart k kinds ≡ true
unfolding all_apart contains
all_apart-contains [] k h c = cc
all_apart-contains (i ∷ ks) k h c = ground (arith, all_apart-contains ks k, string_eq.beq_iff i k)

plural_kind_inj :
    (k j : Kind)
    → contains kinds k ≡ true
    → contains kinds j ≡ true
    → plural_kind k ≡ plural_kind j
    → k ≡ j
plural_kind_inj k j a b =
    plurals_apart-contains k j kinds (all_apart-contains kinds k kinds_apart a) b

all_plurals : List Kind → Bool
all_plurals [] = true
all_plurals (k ∷ ks) = is_name (plural_kind k) && all_plurals ks

kinds_plurals : all_plurals kinds ≡ true
unfolding all_plurals is_name plural_kind lookup
kinds_plurals = refl

all_plurals-contains :
    (ks : List Kind) (k : Kind)
    → all_plurals ks ≡ true
    → contains ks k ≡ true
    → is_name (plural_kind k) ≡ true
unfolding all_plurals contains
all_plurals-contains [] k h c = cc
all_plurals-contains (i ∷ ks) k h c =
    ground (arith, all_plurals-contains ks k, string_eq.beq_iff i k)

-- Two resources of kinds of the API, whose names are not empty, "." or ".." and hold no slash, stand
-- in the same file only when they have the same kind, project and name.
pub build_path_inj :
    (d : Dao) (k j : Kind) (m n : EntityMetadata)
    → contains kinds k ≡ true
    → contains kinds j ≡ true
    → all_names (parts m) ≡ true
    → all_names (parts n) ≡ true
    → build_path d (generate_id k m) ≡ build_path d (generate_id j n)
    → (k ≡ j) × (parts m ≡ parts n)
unfolding all_names
build_path_inj d k j m n a b p q h =
    let e : plural_kind k ∷ parts m ≡ plural_kind j ∷ parts n =
      with_extension_inj d.extension _ _ _ _
        (append_cancel d.folder _ _ (sym (here k m a p) ∙ (h ∙ here j n b q))) in
    (plural_kind_inj k j a b (first e), second e)
  where
    here :
        (k : Kind) (m : EntityMetadata)
        → contains kinds k ≡ true
        → all_names (parts m) ≡ true
        → build_path d (generate_id k m)
          ≡ d.folder ++ with_extension d.extension (plural_kind k ∷ parts m)
    here k m a p =
        build_path-parts d k m (ground (arith, all_plurals-contains kinds k kinds_plurals a))

    first : {x y : String} {a b : List String} → x ∷ a ≡ y ∷ b → x ≡ y
    first h = cc

    second : {x y : String} {a b : List String} → x ∷ a ≡ y ∷ b → a ≡ b
    second h = cc
