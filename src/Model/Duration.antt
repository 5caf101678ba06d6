-- ===== src/Model/Duration.antt =====
-- pkg/model/api/v1/common/duration.go: how a duration is printed. It counts nanoseconds, in a signed
-- 64-bit word; nothing here overflows, since dividing, and taking from a number a part of it, do not.
pub mod Printed
use Prim.Native.Char.{Char}
use Prim.Native.String.{◌++◌}
use Prim.Native.String
use perses.Prelude.{
  ℕ, zero, suc, ◌+◌, ◌-◌, ◌*◌, ◌/◌, ◌%◌, String, Bool, true, false, not, ◌&&◌, if◌then◌else◌, eqb,
  ltb, leb,
}

pub data ℤ : Type 0 where
  pos : ℕ → ℤ
  negsuc : ℕ → ℤ

opposite : ℕ → ℤ
opposite zero = pos 0
opposite (suc n) = negsuc n

-- Go's `/` by a positive constant, which rounds towards zero
unfoldable pub quotient : ℤ → ℕ → ℤ
unfolding opposite
quotient (pos n) d = pos (n / d)
quotient (negsuc n) d = opposite (suc n / d)

-- Whether `%` by a positive constant is zero
unfoldable pub is_multiple : ℤ → ℕ → Bool
is_multiple (pos n) d = eqb (n % d) 0
is_multiple (negsuc n) d = eqb (suc n % d) 0

unfoldable pub minus : ℤ → ℕ → ℤ
minus (pos n) k = if leb k n then pos (n - k) else negsuc (k - n - 1)
minus (negsuc n) k = negsuc (n + k)

character : ℕ → String → Char
character n String.[] = "0"
character zero (String.◌∷◌ c s) = c
character (suc n) (String.◌∷◌ c s) = character n s

digit : ℕ → Char
unfolding character
digit n = character n "0123456789"

digits : ℕ → ℕ → String → String
unfolding digit
digits zero n s = s
digits (suc fuel) n s = elim (ltb n 10) [
  | true ↦ String.◌∷◌ (digit n) s
  | false ↦ digits fuel (n / 10) (String.◌∷◌ (digit (n % 10)) s)
]

-- %d of fmt.Sprintf: a 64-bit word has at most 20 digits.
unfoldable pub decimal : ℕ → String
unfolding digits
decimal n = digits 20 n ""

-- The variables that the closure `f` of String changes.
pub record Printer : Type 0 where
  pub r : String
  pub ms : ℤ

-- if v := ms / mult; v > 0 { ... }
unfoldable pub add_part : String → ℕ → ℤ → Printer → Printer
add_part unit mult (pos v) p =
    if ltb 0 v then record { r = p.r ++ (decimal v ++ unit); ms = minus p.ms (v * mult) } else p
add_part unit mult (negsuc v) p = p

unfoldable pub f : String → ℕ → Bool → Printer → Printer
f unit mult exact p =
    if exact && not (is_multiple p.ms mult) then p else add_part unit mult (quotient p.ms mult) p

is_zero : ℤ → Bool
is_zero (pos n) = eqb n 0
is_zero (negsuc n) = false

unfoldable pub print : Printer → String
print p =
    let years = f "y" (1000 * 60 * 60 * 24 * 365) true p in
    let weeks = f "w" (1000 * 60 * 60 * 24 * 7) true years in
    let days = f "d" (1000 * 60 * 60 * 24) false weeks in
    let hours = f "h" (1000 * 60 * 60) false days in
    let minutes = f "m" (1000 * 60) false hours in
    let seconds = f "s" 1000 false minutes in (f "ms" 1 false seconds).r

unfoldable pub string : ℤ → String
unfolding is_zero
string d =
    let ms = quotient d 1000000 in if is_zero ms then "0s" else print (record { r = ""; ms = ms })
