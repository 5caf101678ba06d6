-- ===== src/Database/Path.antt =====
-- Paths as `filepath` builds and cleans them: lists of elements, the last of which is the file's name.
-- The path "." is the empty list, and "/" is the first element of an absolute path. The separator is
-- the slash.
use Prim.Native.Char.{Char, code}
use Prim.Native.String.{◌++◌ as append_text}
use mathlib.Core.Path.{ap₂}
use text.Mathlib.TextLemmas.{append_cancel_right}
use perses.Prelude.{
  String, ◌≡◌, refl, sym, ◌++◌, Bool, true, false, ◌&&◌, ◌||◌, ◌↔◌, List, [], ◌∷◌, ◌==◌, string_eq,
  Eq, eqb, if◌then◌else◌, arith, Option, none, some,
}

abbrev pub FilePath : Type 0
FilePath = List String

unfoldable pub same_path : FilePath → FilePath → Bool
same_path [] [] = true
same_path [] (y ∷ ys) = false
same_path (x ∷ xs) [] = false
same_path (x ∷ xs) (y ∷ ys) = x == y && same_path xs ys

pub same_path_iff : (p q : FilePath) → (same_path p q ≡ true) ↔ (p ≡ q)
unfolding same_path
same_path_iff [] [] = ground arith
same_path_iff [] (y ∷ ys) = ground arith
same_path_iff (x ∷ xs) [] = ground arith
same_path_iff (x ∷ xs) (y ∷ ys) = ground (arith, string_eq.beq_iff x y, same_path_iff xs ys)

instance abbrev pub path_eq : Eq FilePath
path_eq = record { beq = same_path; beq_iff = same_path_iff }

unfoldable pub add_char : Char → List String → List String
add_char c [] = String.◌∷◌ c "" ∷ []
add_char c (x ∷ xs) = String.◌∷◌ c x ∷ xs

-- the texts between the slashes of a text
unfoldable pub elements : String → List String
unfolding add_char
elements String.[] = "" ∷ []
elements (String.◌∷◌ c s) =
    let rest = elements s in if eqb (code c) b'/' then "" ∷ rest else add_char c rest

unfoldable pub all_elements : List String → List String
all_elements [] = []
all_elements (x ∷ xs) = elements x ++ all_elements xs

-- ".." after a clean path: it takes the last element away, unless that is the root or a "..".
unfoldable pub up : FilePath → FilePath
up [] = ".." ∷ []
up (x ∷ []) = if x == ".." then x ∷ ".." ∷ [] else if x == "/" then x ∷ [] else []
up (x ∷ y ∷ p) = x ∷ up (y ∷ p)

unfoldable pub step : FilePath → String → FilePath
step above x =
    if x == "" || x == "." then above else if x == ".." then up above else above ++ x ∷ []

-- filepath.Clean of a clean path with elements after it
unfoldable pub clean : FilePath → List String → FilePath
clean above [] = above
clean above (x ∷ xs) = clean (step above x) xs

-- filepath.Join of a clean path and names
unfoldable pub join : FilePath → List String → FilePath
join above names = clean above (all_elements names)

-- fmt.Sprintf("%s.%s", key, extension), where an empty key is "."
unfoldable pub file_name : String → String → String
file_name name extension = append_text name (append_text "." extension)

unfoldable pub with_extension : String → FilePath → FilePath
with_extension extension [] = file_name "." extension ∷ []
with_extension extension (x ∷ []) = file_name x extension ∷ []
with_extension extension (x ∷ y ∷ xs) = x ∷ with_extension extension (y ∷ xs)

-- The path of a folder, or of something below it.
unfoldable pub is_below : FilePath → FilePath → Bool
is_below [] p = true
is_below (x ∷ root) [] = false
is_below (x ∷ root) (y ∷ p) = x == y && is_below root p

pub is_below_iff :
    (root p : FilePath) → (is_below root p ≡ true) ↔ ((rest : FilePath) × (p ≡ root ++ rest))
unfolding is_below
is_below_iff [] p = (λ h. (p, refl), λ (rest, e). refl)
is_below_iff (x ∷ root) [] = (λ h. cc, λ (rest, e). cc)
is_below_iff (x ∷ root) (y ∷ p) = (
  λ h.
      let (rest, e) = (is_below_iff root p).0 (ground arith) in
      (rest, ap₂ ◌∷◌ (sym ((string_eq.beq_iff x y).0 (ground arith))) e),
  λ (rest, e).
      let below = (is_below_iff root p).1 (rest, ground (arith, e)) in
      ground (arith, below, string_eq.beq_iff x y, e),
)

-- info.Name()
unfoldable pub base : FilePath → String
base [] = ""
base (x ∷ []) = x
base (x ∷ y ∷ p) = base (y ∷ p)

-- from the last dot of a name on
unfoldable pub after_dot : String → Option String
after_dot String.[] = none
after_dot (String.◌∷◌ c s) = elim (after_dot s) [
  | some e ↦ some e
  | none ↦ if eqb (code c) b'.' then some (String.◌∷◌ c s) else none
]

-- filepath.Ext
unfoldable pub extension_of : String → String
extension_of name = elim (after_dot name) [ none ↦ "" | some e ↦ e ]

pub file_name_inj : (x y e : String) → file_name x e ≡ file_name y e → x ≡ y
unfolding file_name
file_name_inj x y e h = append_cancel_right x y (append_text "." e) h
