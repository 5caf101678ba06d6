-- ===== src/Model/Unmarshal.antt =====
-- The shape that the `UnmarshalJSON` and `UnmarshalYAML` methods of the model share: decode into a
-- fresh value, validate it, and only then assign it to the receiver. The decoder of encoding/json or
-- yaml is given by its result. `validate` returns the value, since it may normalise it.
use perses.Prelude.{◌≡◌, refl, ◌⊎◌, inl, inr}
use perses.Prelude.Result.{Result, ok, err, Error, ◌>>=◌}

abbrev assign {ℓ} : {A : Type ℓ} → Result A → A → Result (Unit {0}) × A
assign (ok v) receiver = (ok tt, v)
assign (err e) receiver = (err e, receiver)

unfoldable pub unmarshal {ℓ} : {A : Type ℓ} → (A → Result A) → Result A → A → Result (Unit {0}) × A
unmarshal validate decoded receiver = assign (do tmp ← decoded; validate tmp) receiver

-- Either the receiver becomes a value that `validate` returned, or an error leaves it as it was.
pub unmarshal_cases {ℓ} :
    {A : Type ℓ} (validate : A → Result A) (decoded : Result A) (receiver : A)
    → ((tmp : A) × (v : A) × (decoded ≡ ok tmp)
        × (validate tmp ≡ ok v)
        × (unmarshal validate decoded receiver ≡ (ok tt, v)))
      ⊎ ((e : Error) × (unmarshal validate decoded receiver ≡ (err e, receiver)))
unfolding unmarshal
unmarshal_cases validate (err e) receiver = inr (e, refl)
unmarshal_cases {A} validate (ok tmp) receiver = step (validate tmp) refl
  where
    step :
        (r : Result A)
        → validate tmp ≡ r
        → ((t : A) × (v : A) × (ok tmp ≡ ok t)
            × (validate t ≡ ok v)
            × (assign (validate tmp) receiver ≡ (ok tt, v)))
          ⊎ ((e : Error) × (assign (validate tmp) receiver ≡ (err e, receiver)))
    step (ok v) h = inl (tmp, v, refl, h, rw h)
    step (err e) h = inr (e, rw h)
