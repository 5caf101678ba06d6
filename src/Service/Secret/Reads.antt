-- ===== src/Service/Secret/Reads.antt =====
-- Reading a secret after its update, over the database in files.
use mathlib.Core.Path.{ap₂}
use perses.Prelude.{String, ℕ, ◌≡◌, sym, ◌∙◌, ap, subst, inl, inr}
use perses.Prelude.Result.{Result, ok, err}
use perses.Model.Secret.{Secret, SecretSpec, PublicSecret, new_public_secret}
use perses.Toolbox.{Parameters}
use perses.Database.File.{FileSystem, Codec}
use perses.Database.File as File
use perses.Database.File.Store.{IsLawful}
use perses.Service.Entity.Updates.{Replaces}
use perses.Service.Persistence.{project_dao}
use perses.Service.Persistence.Reads.{get_entity-update_entity}
use perses.Service.Project.Steps.{map_result-eq-ok}
use perses.Service.Secret.{replace, update, get}
use perses.Service.Secret.Writes.{IsEncryptedUpdate, replace-IsEncryptedUpdate}

abbrev parameters_of : String → String → Parameters
parameters_of project name = record { project = project; name = name }

module _ {D : Type 0} (codec : Codec SecretSpec D) (d : File.Dao)
    (encrypt : SecretSpec → Result SecretSpec) where
  read_back :
      (r : Secret) (p : Parameters) (fs after : FileSystem D) {out : Result Secret × FileSystem D}
      {e : Secret}
      → IsLawful codec d
      → r.kind ≡ "Secret"
      → Replaces (project_dao codec d "Secret") p (IsEncryptedUpdate encrypt r p) fs out
      → out ≡ (ok e, after)
      → (project_dao codec d "Secret").get_entity p after ≡ ok e
  unfolding Replaces
  read_back r p fs after law k (inl (c, failed)) h = absurd (wrong (ap (λ x. x.0) (sym failed ∙ h)))
    where
      wrong : {e : Secret} → err c ≡ ok e → ⊥
      wrong q = cc
  read_back r p fs after {e = e} law k (inr (old, new, g, (i, spec), written)) h =
      subst (λ q. (project_dao codec d "Secret").get_entity q after ≡ ok e)
        (ap₂ parameters_of i.placed i.named)
        (get_entity-update_entity codec d "Secret" new fs after law
          (ap (λ x. x.kind) (i.same_rest new.metadata) ∙ k) (sym written ∙ h))

  -- After an update of a secret in the database in files, reading the secret of the path answers with
  -- the public secret that the update answered with. The codec reads back what it wrote.
  pub get-update :
      (now : ℕ) (r : Secret) (p : Parameters) (fs after : FileSystem D) (answer : PublicSecret)
      → IsLawful codec d
      → r.kind ≡ "Secret"
      → update (project_dao codec d "Secret") encrypt now r p fs ≡ (ok answer, after)
      → get (project_dao codec d "Secret") encrypt p after ≡ ok answer
  unfolding update get
  get-update now r p fs after answer law k h =
      let (e, made, same) =
        map_result-eq-ok new_public_secret
          (replace (project_dao codec d "Secret") encrypt now r p fs) h in
      let found =
        read_back r p fs after law k
          (replace-IsEncryptedUpdate (project_dao codec d "Secret") encrypt now r p fs) made in
      rw found (ap ok same)
