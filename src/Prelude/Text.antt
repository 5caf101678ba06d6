-- ===== src/Prelude/Text.antt =====
-- Texts: Go's `strings.ToLower`, and the switch over `strings.ToLower` of constants by which kinds,
-- scopes and actions are read; `strings.TrimSpace`, `strings.HasPrefix` and `strings.Contains`.
use Prim.Native.Nat.{ℕ, ◌<◌, Ordering, compare}
use Prim.Native.Char.{Char, code, width, len_utf8_def}
use Prim.Native.String.{String, len, ◌++◌ as append_text}
use Prim.Native.String.append
use Prim.Native.String.len
use text.Mathlib.TextEquality.{Char-path}
use text.Mathlib.TextLemmas.{nil≢cons, head-eq_of_cons-eq, tail-eq_of_cons-eq}
use mathlib.Core.Path.{◌∙◌, ◌≡◌, refl, sym, ap, ap₂}
use mathlib.Core.Logic.{inl, inr, ◌↔◌}
use mathlib.Core.Bool.{Bool, true, false, ◌&&◌, ◌||◌}
use mathlib.Core.Option.{Option, none, some}
use mathlib.Core.List.{List, [], ◌∷◌}
use native.Mathlib.Omega.{arith}
use perses.Prelude.Tests.{if◌then◌else◌, eqb, leb}
use perses.Prelude.Classes.{◌==◌, string_eq}
use perses.Prelude.Lists.{In}
use perses.Prelude.Lower.{lower_char, lower_char_idem}

unfoldable pub to_lower : String → String
unfolding lower_char
to_lower String.[] = String.[]
to_lower (String.◌∷◌ c s) = String.◌∷◌ (lower_char c) (to_lower s)

pub to_lower_idem : (s : String) → to_lower (to_lower s) ≡ to_lower s
unfolding to_lower
to_lower_idem String.[] = refl
to_lower_idem (String.◌∷◌ c s) = ap₂ String.◌∷◌ (lower_char_idem c) (to_lower_idem s)

-- switch k { case strings.ToLower(c): ... } over the constants in the order of the cases.
unfoldable pub by_lower : String → List String → Option String
by_lower k [] = none
by_lower k (c ∷ cs) = if to_lower c == k then some c else by_lower k cs

pub by_lower-some :
    (k : String) (cs : List String) (c : String)
    → by_lower k cs ≡ some c
    → In c cs × (to_lower c ≡ k)
unfolding by_lower
by_lower-some k [] c h = cc
by_lower-some k (d ∷ cs) c h =
    ground (arith, string_eq.beq_iff (to_lower d) k, by_lower-some k cs c)

is_some_of : String → Option String → Bool
is_some_of d none = false
is_some_of d (some c) = c == d

is_some_of_eq : (d : String) (o : Option String) → is_some_of d o ≡ true → o ≡ some d
unfolding is_some_of
is_some_of_eq d none h = cc
is_some_of_eq d (some c) h = ap some ((string_eq.beq_iff c d).0 h)

-- Each constant is found by its own lower case.
unfoldable pub is_switch : List String → List String → Bool
unfolding is_some_of
is_switch all [] = true
is_switch all (c ∷ cs) = is_some_of c (by_lower (to_lower c) all) && is_switch all cs

both : (a b : Bool) → (a && b) ≡ true → (a ≡ true) × (b ≡ true)
both a b h = ground arith

by_lower-In :
    (all cs : List String) (c : String)
    → is_switch all cs ≡ true
    → In c cs
    → by_lower (to_lower c) all ≡ some c
unfolding is_switch
by_lower-In all [] c s i = absurd i
by_lower-In all (d ∷ cs) c s (inl e) =
    rw e (is_some_of_eq d (by_lower (to_lower d) all) (both _ _ s).0)
by_lower-In all (d ∷ cs) c s (inr i) = by_lower-In all cs c (both _ _ s).1 i

module _ (cs : List String) (switch : is_switch cs cs ≡ true) where
  -- A switch finds `c` for the texts that differ from it at most in case, and for no others.
  pub by_lower-eq-some :
      (s c : String) → (by_lower (to_lower s) cs ≡ some c) ↔ (In c cs × (to_lower s ≡ to_lower c))
  by_lower-eq-some s c = (
    λ e. let (i, q) = by_lower-some (to_lower s) cs c e in (i, sym q),
    λ h. rw h.1 (by_lower-In cs cs c switch h.0),
  )

-- unicode.IsSpace
is_space : ℕ → Bool
is_space c =
    (leb 9 c && leb c 13)
    || eqb c 0x20
    || eqb c 0x85
    || eqb c 0xA0
    || eqb c 0x1680
    || (leb 0x2000 c && leb c 0x200A)
    || eqb c 0x2028
    || eqb c 0x2029
    || eqb c 0x202F
    || eqb c 0x205F
    || eqb c 0x3000

trim_left : String → String
trim_left String.[] = String.[]
trim_left (String.◌∷◌ c s) =
    let rest = trim_left s in if is_space (code c) then rest else String.◌∷◌ c s

reverse_onto : String → String → String
reverse_onto String.[] t = t
reverse_onto (String.◌∷◌ c s) t = reverse_onto s (String.◌∷◌ c t)

-- strings.TrimSpace
unfoldable pub trim_space : String → String
unfolding trim_left reverse_onto is_space
trim_space s = reverse_onto (trim_left (reverse_onto (trim_left s) "")) ""

unfoldable pub has_prefix : String → String → Bool
has_prefix s String.[] = true
has_prefix String.[] (String.◌∷◌ d p) = false
has_prefix (String.◌∷◌ c s) (String.◌∷◌ d p) = eqb (code c) (code d) && has_prefix s p

pub has_prefix_iff :
    (s p : String) → (has_prefix s p ≡ true) ↔ ((t : String) × (s ≡ append_text p t))
unfolding has_prefix
has_prefix_iff s String.[] = (λ h. (s, sym (append.nil s)), λ (t, e). refl)
has_prefix_iff String.[] (String.◌∷◌ d p) =
    (λ h. cc, λ (t, e). absurd (nil≢cons (e ∙ append.cons d p t)))
has_prefix_iff (String.◌∷◌ c s) (String.◌∷◌ d p) = (
  λ h.
      let (t, e) = (has_prefix_iff s p).0 (ground arith) in
      (t, ap₂ String.◌∷◌ (Char-path c d (ground arith)) e ∙ sym (append.cons d p t)),
  λ (t, e).
      let same = e ∙ append.cons d p t in
      let next = (has_prefix_iff s p).1 (t, tail-eq_of_cons-eq same) in
      ground (arith, next, ap code (head-eq_of_cons-eq same)),
)

-- strings.Contains
unfoldable pub contains_text : String → String → Bool
unfolding has_prefix
contains_text String.[] p = has_prefix String.[] p
contains_text (String.◌∷◌ c s) p = has_prefix (String.◌∷◌ c s) p || contains_text s p

width_pos : (a b c : Ordering) → 0 < width a b c
width_pos Ordering.lt b c = omega arith
width_pos Ordering.eq Ordering.lt c = omega arith
width_pos Ordering.eq Ordering.eq Ordering.lt = omega arith
width_pos Ordering.eq Ordering.eq Ordering.eq = omega arith
width_pos Ordering.eq Ordering.eq Ordering.gt = omega arith
width_pos Ordering.eq Ordering.gt Ordering.lt = omega arith
width_pos Ordering.eq Ordering.gt Ordering.eq = omega arith
width_pos Ordering.eq Ordering.gt Ordering.gt = omega arith
width_pos Ordering.gt Ordering.lt c = omega arith
width_pos Ordering.gt Ordering.eq Ordering.lt = omega arith
width_pos Ordering.gt Ordering.eq Ordering.eq = omega arith
width_pos Ordering.gt Ordering.eq Ordering.gt = omega arith
width_pos Ordering.gt Ordering.gt Ordering.lt = omega arith
width_pos Ordering.gt Ordering.gt Ordering.eq = omega arith
width_pos Ordering.gt Ordering.gt Ordering.gt = omega arith

pub empty_text : (t : String) → eqb (len t) 0 ≡ true → t ≡ ""
empty_text String.[] h = refl
empty_text (String.◌∷◌ c s) h = absurd (
    ground (
      arith,
      len.cons c s,
      len_utf8_def c,
      width_pos (compare (code c) 0x80) (compare (code c) 0x800) (compare (code c) 0x10000),
    ))

pub len_cons_pos : (c : Char) (s : String) → 0 < len (String.◌∷◌ c s)
len_cons_pos c s = omega (
  arith,
  len.cons c s,
  len_utf8_def c,
  width_pos (compare (code c) 0x80) (compare (code c) 0x800) (compare (code c) 0x10000),
)
