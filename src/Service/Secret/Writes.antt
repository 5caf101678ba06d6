-- ===== src/Service/Secret/Writes.antt =====
-- What an update of a secret hands to the database.
use perses.Prelude.{ℕ, ◌≡◌, refl, sym, ◌∙◌, ap, inr}
use perses.Prelude.Result.{Result, ok, err}
use perses.Model.Secret.{Secret, SecretSpec}
use perses.Toolbox.{Parameters}
use perses.Service.Entity.{ProjectDao, IsUpdate, updated, check_path, or_internal, resource_entity}
use perses.Service.Entity.Updates.{Replaces, on_ok-Replaces, updated-IsUpdate}
use perses.Service.Secret.{replace}

or_internal-eq-ok : {A : Type 0} (r : Result A) (a : A) → or_internal r ≡ ok a → r ≡ ok a
or_internal-eq-ok (err e) a h = cc
or_internal-eq-ok (ok b) a h = h

abbrev with_spec : SecretSpec → Secret → Secret
with_spec spec s = record s { spec = spec }

-- The update stores the encryption of the spec of the request.
abbrev pub IsEncryptedUpdate :
    (SecretSpec → Result SecretSpec) → Secret → Parameters → Secret → Secret → Type 0
IsEncryptedUpdate encrypt r p old new =
    IsUpdate (record r { spec = new.spec }) p old new × (encrypt r.spec ≡ ok new.spec)

module _ {DB : Type 0} (dao : ProjectDao Secret DB) (encrypt : SecretSpec → Result SecretSpec) where
  stored :
      (now : ℕ) (r f old : Secret) (p : Parameters) (spec : SecretSpec)
      → check_path r p ≡ ok f
      → encrypt f.spec ≡ ok spec
      → IsEncryptedUpdate encrypt r p old (record (updated now f old) { spec = spec })
  unfolding updated
  stored now r f old p spec q h =
      let i = updated-IsUpdate now r f p q old in
      (
        record {
          named = i.named;
          placed = i.placed;
          kept = i.kept;
          counted = i.counted;
          same_rest = λ m. ap (with_spec spec) (i.same_rest m);
        },
        ap (λ x. encrypt x.spec) (sym (i.same_rest r.metadata)) ∙ h,
      )

  -- An update of a secret fails and changes nothing, or the secret exists under the name and project
  -- of the path and is replaced by the request, whose spec was encrypted, with the time of creation
  -- of the old secret and its version plus one.
  pub replace-IsEncryptedUpdate :
      (now : ℕ) (r : Secret) (p : Parameters) (db : DB)
      → Replaces dao p (IsEncryptedUpdate encrypt r p) db (replace dao encrypt now r p db)
  unfolding replace Replaces
  replace-IsEncryptedUpdate now r p db =
      on_ok-Replaces dao p (IsEncryptedUpdate encrypt r p) db _ _ (λ f q.
        on_ok-Replaces dao p (IsEncryptedUpdate encrypt r p) db _ _ (λ old g.
          on_ok-Replaces dao p (IsEncryptedUpdate encrypt r p) db _ _ (λ spec h. inr (
            old,
            _,
            g,
            stored now r f old p spec q (or_internal-eq-ok (encrypt f.spec) spec h),
            refl,
          ))))
