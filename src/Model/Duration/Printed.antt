-- ===== src/Model/Duration/Printed.antt =====
-- What is printed of a duration adds up to its milliseconds.
use Prim.Native.String.{◌++◌}
use perses.Prelude.{
  ℕ, zero, suc, ◌+◌, ◌*◌, ◌/◌, ◌%◌, ◌<◌, ◌≡◌, refl, sym, ◌∙◌, ap, String, Bool, true, false, List,
  [], ◌∷◌, arith, eqb, inl, inr, Bool-cases, ltb,
}
use native.Mathlib.Nat.{div-add-mod', mod-lt}
use perses.Model.Duration.{
  pos, Printer, f, add_part, quotient, is_multiple, minus, decimal, print, string,
}

with_part : String → ℕ → String → String
with_part r zero unit = r
with_part r (suc v) unit = r ++ (decimal (suc v) ++ unit)

pub joined : String → List (ℕ × String) → String
unfolding with_part
joined r [] = r
joined r ((v, unit) ∷ rest) = joined (with_part r v unit) rest

-- A unit takes `v` of it from the milliseconds, and leaves less than one of it; in exact mode it takes nothing or leaves nothing.
IsStep : String → ℕ → Bool → String → ℕ → ℕ → ℕ → Type 0
IsStep unit mult exact r n v m =
    (f unit mult exact (record { r = r; ms = pos n })
      ≡ record { r = with_part r v unit; ms = pos m })
    × (n ≡ v * mult + m)
    × (exact ≡ false → m < mult)
    × (exact ≡ true → 0 < v → m ≡ 0)

minus-part : (n k m : ℕ) → n ≡ k + m → minus (pos n) k ≡ pos m
unfolding minus
minus-part n k m e = ground arith

add_part-pos :
    (unit r : String) (mult n v m : ℕ)
    → n ≡ v * mult + m
    → add_part unit mult (pos v) (record { r = r; ms = pos n })
      ≡ record { r = with_part r v unit; ms = pos m }
unfolding add_part minus with_part
add_part-pos unit r mult n zero m e = ap (λ k. record { r = r; ms = pos k }) (omega (arith, e))
add_part-pos unit r mult n (suc v) m e =
    let some_units : ltb 0 (suc v) ≡ true = ground arith in
    rw (some_units, add_part)
      (ap (λ k. record { r = r ++ (decimal (suc v) ++ unit); ms = k })
        (minus-part n (suc v * mult) m e))

f-IsStep :
    (unit : String) (mult : ℕ) (exact : Bool) (r : String) (n : ℕ)
    → 0 < mult
    → (v : ℕ) × (m : ℕ) × IsStep unit mult exact r n v m
unfolding f IsStep quotient is_multiple with_part
f-IsStep unit mult true r n positive = elim (Bool-cases (eqb (n % mult) 0)) [
  | inl e ↦ (
    n / mult,
    n % mult,
    (
      rw (e, f) (add_part-pos unit r mult n (n / mult) (n % mult) (sym (div-add-mod' n mult))),
      sym (div-add-mod' n mult),
      (λ q. cc),
      λ q some_units. ground arith,
    ),
  )
  | inr e ↦ (0, n, (rw (e, f) refl, omega arith, (λ q. cc), λ q some_units. omega arith))
]
f-IsStep unit mult false r n positive = (
  n / mult,
  n % mult,
  (
    add_part-pos unit r mult n (n / mult) (n % mult) (sym (div-add-mod' n mult)),
    sym (div-add-mod' n mult),
    (λ q. mod-lt n positive),
    λ q some_units. cc,
  ),
)

-- The parts of a printed duration, and how long they are together.
abbrev pub parts : ℕ → ℕ → ℕ → ℕ → ℕ → ℕ → ℕ → List (ℕ × String)
parts y w d h m s ms =
    (y, "y") ∷ (w, "w") ∷ (d, "d") ∷ (h, "h") ∷ (m, "m") ∷ (s, "s") ∷ (ms, "ms") ∷ []

abbrev pub total : ℕ → ℕ → ℕ → ℕ → ℕ → ℕ → ℕ → ℕ
total y w d h m s ms =
    y * 31536000000 + w * 604800000 + d * 86400000 + h * 3600000 + m * 60000 + s * 1000 + ms

-- Parts of `n` nanoseconds: each is less than one of the next larger unit from hours down, and years
-- and weeks stand alone.
pub IsPrinted : ℕ → Type 0
IsPrinted n =
    (y w d h m s ms : ℕ) × (string (pos n) ≡ joined "" (parts y w d h m s ms))
    × (total y w d h m s ms ≡ n / 1000000)
    × (h < 24)
    × (m < 60)
    × (s < 60)
    × (ms < 1000)
    × (0 < y → w + d + h + m + s + ms ≡ 0)
    × (0 < w → d + h + m + s + ms ≡ 0)

-- A duration of at least a millisecond is printed as the numbers of its units, largest first and
-- none that is zero: they add up to its whole milliseconds, hours are fewer than 24, minutes and
-- seconds fewer than 60 and milliseconds fewer than 1000, and years or weeks stand alone.
pub string-IsPrinted : (n : ℕ) → 0 < n / 1000000 → IsPrinted n
unfolding IsPrinted string print quotient IsStep joined
string-IsPrinted n some_ms =
    let (y, n1, (e1, t1, b1, z1)) = f-IsStep "y" 31536000000 true "" (n / 1000000) (omega arith) in
    let r1 = with_part "" y "y" in
    let (w, n2, (e2, t2, b2, z2)) = f-IsStep "w" 604800000 true r1 n1 (omega arith) in
    let r2 = with_part r1 w "w" in
    let (d, n3, (e3, t3, b3, z3)) = f-IsStep "d" 86400000 false r2 n2 (omega arith) in
    let r3 = with_part r2 d "d" in
    let (h, n4, (e4, t4, b4, z4)) = f-IsStep "h" 3600000 false r3 n3 (omega arith) in
    let r4 = with_part r3 h "h" in
    let (m, n5, (e5, t5, b5, z5)) = f-IsStep "m" 60000 false r4 n4 (omega arith) in
    let r5 = with_part r4 m "m" in
    let (s, n6, (e6, t6, b6, z6)) = f-IsStep "s" 1000 false r5 n5 (omega arith) in
    let (ms, n7, (e7, t7, b7, z7)) = f-IsStep "ms" 1 false (with_part r5 s "s") n6 (omega arith) in
    let k6 : Printer → String = λ p. (f "ms" 1 false p).r in
    let k5 : Printer → String = λ p. k6 (f "s" 1000 false p) in
    let k4 : Printer → String = λ p. k5 (f "m" 60000 false p) in
    let k3 : Printer → String = λ p. k4 (f "h" 3600000 false p) in
    let k2 : Printer → String = λ p. k3 (f "d" 86400000 false p) in
    let k1 : Printer → String = λ p. k2 (f "w" 604800000 true p) in
    let text : print (record { r = ""; ms = pos (n / 1000000) })
        ≡ joined "" (parts y w d h m s ms) =
      ap k1 e1
      ∙ (ap k2 e2 ∙ (ap k3 e3 ∙ (ap k4 e4 ∙ (ap k5 e5 ∙ (ap k6 e6 ∙ ap (λ p. p.r) e7))))) in
    let c3 = b3 refl in
    let c4 = b4 refl in
    let c5 = b5 refl in
    let c6 = b6 refl in
    let c7 = b7 refl in
    let alone1 : 0 < y → n1 ≡ 0 = z1 refl in
    let alone2 : 0 < w → n2 ≡ 0 = z2 refl in
    let not_zero : eqb (n / 1000000) 0 ≡ false = ground (arith, some_ms) in
    (
      y,
      w,
      d,
      h,
      m,
      s,
      ms,
      rw not_zero text,
      omega arith,
      omega arith,
      omega arith,
      omega arith,
      omega arith,
      (λ q. omega (arith, alone1 q)),
      λ q. omega (arith, alone2 q),
    )
