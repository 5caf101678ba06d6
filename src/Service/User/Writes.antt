-- ===== src/Service/User/Writes.antt =====
-- What an update of a user hands to the database.
use Prim.Native.String.{len}
use perses.Prelude.{
  ℕ, ◌+◌, ◌%◌, ◌^◌, ◌≡◌, refl, sym, ap, String, true, false, eqb, ◌⊎◌, inl, inr, arith, string_eq,
  Bool-cases,
}
use perses.Prelude.Result.{Result, ok}
use perses.Model.User.{User}
use perses.Authorization.Native.{Lists}
use perses.Toolbox.{Parameters}
use perses.Toolbox.Binding.{ok_inj}
use perses.Service.Entity.{GlobalDao, IsGlobalUpdate, updated_global, check_name}
use perses.Service.Entity.Updates.{Replaces, on_ok-Replaces, updated-IsGlobalUpdate}
use perses.Service.User.{entity, with_password, with_names, or_old, new_hash, replace}

-- What the request says, or the old text where the request leaves it empty.
abbrev pub IsKept : String → String → String → Type 0
IsKept asked old new =
    ((eqb (len asked) 0 ≡ true) × (new ≡ old)) ⊎ ((eqb (len asked) 0 ≡ false) × (new ≡ asked))

or_old-IsKept : (asked old : String) → IsKept asked old (or_old asked old)
or_old-IsKept asked old = ground arith

-- The user after an update: the request where it says something, the old user where it does not.
pub record IsUserUpdate (hash_and_salt : String → Result String) (r : User) (p : Parameters)
    (old new : User) : Type 0 where
  pub named : new.metadata.name ≡ p.name
  pub kept : new.metadata.created_at ≡ old.metadata.created_at
  pub counted : new.metadata.version ≡ (old.metadata.version + 1) % 2 ^ 64
  pub first_name : IsKept r.spec.first_name old.spec.first_name new.spec.first_name
  pub last_name : IsKept r.spec.last_name old.spec.last_name new.spec.last_name
  pub providers : new.spec.oauth_providers ≡ r.spec.oauth_providers
  pub password :
      ((eqb (len r.spec.native_provider.password) 0 ≡ true)
        × (new.spec.native_provider.password ≡ old.spec.native_provider.password))
      ⊎ ((eqb (len r.spec.native_provider.password) 0 ≡ false)
          × (hash_and_salt r.spec.native_provider.password ≡ ok new.spec.native_provider.password))

module _ {DB : Type 0} (dao : GlobalDao User DB) (lists_of : DB → Lists)
    (hash_and_salt : String → Result String) where
  new_hash-eq-ok :
      (f old : User) (hash : String)
      → new_hash dao lists_of hash_and_salt f old ≡ ok hash
      → ((eqb (len f.spec.native_provider.password) 0 ≡ true)
          × (hash ≡ old.spec.native_provider.password))
        ⊎ ((eqb (len f.spec.native_provider.password) 0 ≡ false)
            × (hash_and_salt f.spec.native_provider.password ≡ ok hash))
  unfolding new_hash
  new_hash-eq-ok f old hash h = elim (Bool-cases (eqb (len f.spec.native_provider.password) 0)) [
    | inl z ↦ inl (z, sym (ok_inj _ hash (rw (z, new_hash) at h)))
    | inr z ↦ inr (z, rw (z, new_hash) at h)
  ]

  stored :
      (now : ℕ) (r f old : User) (p : Parameters) (hash : String)
      → r ≡ f
      → IsGlobalUpdate r p old (updated_global now f old)
      → new_hash dao lists_of hash_and_salt f old ≡ ok hash
      → IsUserUpdate hash_and_salt r p old
          (with_names (with_password hash (updated_global now f old)) old)
  unfolding with_names with_password updated_global
  stored now r f old p hash same i h = record {
    named = i.named;
    kept = i.kept;
    counted = i.counted;
    first_name = rw same (or_old-IsKept f.spec.first_name old.spec.first_name);
    last_name = rw same (or_old-IsKept f.spec.last_name old.spec.last_name);
    providers = ap (λ u. u.spec.oauth_providers) (sym same);
    password = rw same (new_hash-eq-ok f old hash h);
  }

  check_name-same : (r f : User) (p : Parameters) → check_name r p ≡ ok f → r ≡ f
  unfolding check_name
  check_name-same r f p h = ok_inj r f (ground arith)

  -- An update of a user fails and changes nothing, or the user exists and is replaced by the request
  -- with the old first name, last name or password where the request leaves them empty, its names
  -- where it gives them, and the hash of a new password in its place.
  pub replace-IsUserUpdate :
      (now : ℕ) (r : User) (p : Parameters) (db : DB)
      → Replaces dao p.name
          (IsUserUpdate hash_and_salt r p)
          db
          (replace dao lists_of hash_and_salt now r p db)
  unfolding replace Replaces
  replace-IsUserUpdate now r p db =
      on_ok-Replaces dao p.name (IsUserUpdate hash_and_salt r p) db _ _ (λ f q.
        on_ok-Replaces dao p.name (IsUserUpdate hash_and_salt r p) db _ _ (λ old g.
          on_ok-Replaces dao p.name (IsUserUpdate hash_and_salt r p) db _ _ (λ hash h. inr (
            old,
            _,
            g,
            stored now r f old p hash (check_name-same r f p q)
                (updated-IsGlobalUpdate now r f p q old) h,
            refl,
          ))))
