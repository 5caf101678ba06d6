-- ===== src/Examples/Durations.antt =====
-- Durations as they are printed: a day and a little more, two weeks, and less than a millisecond.
use perses.Prelude.{◌≡◌, refl, arith}
use perses.Model.Duration.{
  pos, negsuc, string, is_multiple, add_part, quotient, f, decimal, minus, print,
}
use perses.Model.Duration.Printed.{IsPrinted, string-IsPrinted}

day_and_more : string (pos 90061001000000) ≡ "1d1h1m1s1ms"
unfolding string quotient print f add_part is_multiple minus decimal
day_and_more = refl

two_weeks : string (pos 1209600000000000) ≡ "2w"
unfolding string quotient print f add_part is_multiple minus decimal
two_weeks = refl

nothing : string (pos 999999) ≡ "0s"
unfolding string quotient
nothing = refl

below_zero : string (negsuc 999999) ≡ ""
unfolding string quotient print f add_part is_multiple
below_zero = refl

string-IsPrinted_example : IsPrinted 90061001000000
string-IsPrinted_example = string-IsPrinted 90061001000000 (omega arith)
