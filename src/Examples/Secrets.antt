-- ===== src/Examples/Secrets.antt =====
-- A secret with a password, a cipher that only marks its texts, and the update of the secret.
use perses.Prelude.GoMap.{lookup}
use perses.Database.Path.{
  with_extension, file_name, same_path, join, elements, step, all_elements, clean,
}
use perses.Model.Kind.{plural_kind}
use perses.Model.Metadata.{
  new_metadata, flatten, new_project_metadata, flatten_project, update_project,
}
use Prim.Native.Char.{code}
use Prim.Native.String.{len}
use perses.Prelude.{
  ℕ, String, ◌≡◌, refl, Bool, true, false, ◌&&◌, [], ◌∷◌, Option, none, some, eqb, if◌then◌else◌,
  arith, ◌⊎◌, contains,
}
use perses.Prelude.Text.{len_cons_pos}
use perses.Prelude.Result.{Result, ok}
use perses.Model.Secret.{
  Secret, SecretSpec, PublicSecret, new_public_secret, new_public_secret_spec, new_public_oauth,
  new_public_basic_auth, new_public_tls_config, new_public_authorization,
}
use perses.Model.Secret.Hiding.{redact, print}
use perses.Crypto.{
  Cipher, Field, encrypt, decrypt, encrypt_text, encrypt_tls_config, encrypt_authorization,
  encrypt_oauth, encrypt_basic_auth, encrypt_cfb,
}
use perses.Crypto.Roundtrip.{IsCipher, is_legacy, has_secret, decrypt-encrypt}
use perses.Crypto.Hiding.{print-encrypt}
use perses.Toolbox.{Parameters, in_project, flatten_metadata}
use perses.Database.File.{
  Document, FileSystem, Dao, Codec, folders_to, check_name, build_path, upsert, generate_id,
  write_file, write_document,
}
use perses.Database.File.Store.{IsLawful}
use perses.Service.Entity.{ProjectDao, updated, on_ok, with_project, map_result, check_path}
use perses.Service.Entity.Updates.{Replaces}
use perses.Service.Persistence.{project_dao, read_as, project_resource, write_as, project_document}
use perses.Service.Secret.{update, replace, get}
use perses.Service.Secret.Writes.{IsEncryptedUpdate, replace-IsEncryptedUpdate}
use perses.Service.Secret.Reads.{get-update}
use perses.Examples.Roles.{one_entity}

unmark : String → Option String
unmark String.[] = none
unmark (String.◌∷◌ c s) = if eqb (code c) b's' then some s else none

without_mark : String → String
without_mark String.[] = ""
without_mark (String.◌∷◌ c s) = s

abbrev marking : Cipher String
marking = record {
  new_gcm = ok tt;
  seal = λ n t. String.◌∷◌ "s" t;
  open_sealed = unmark;
  cfb_encrypt = λ n t. String.◌∷◌ "c" t;
  cfb_decrypt = without_mark;
  size = len;
  nonce_size = 1;
  block_size = 1;
  encode = λ c. c;
  decode = ok;
}

marking-IsCipher : IsCipher marking
unfolding unmark without_mark
marking-IsCipher = record {
  gcm_exists = refl;
  decodes = λ c. refl;
  encodes = λ c h. h;
  opens = λ n t. refl;
  sealed_size = λ n t. ground (arith, len_cons_pos "s" t);
  sealed_some = λ n t. len_cons_pos "s" t;
  rejects = λ n t. refl;
  deciphers = λ n t. refl;
  cfb_size = λ n t. ground (arith, len_cons_pos "c" t);
  cfb_some = λ n t. len_cons_pos "c" t;
}

abbrev random : Field → Result ℕ
random f = ok 0

abbrev with_password : String → SecretSpec
with_password password = record {
  basic_auth = some (record { username = "ada"; password = password; password_file = "" });
  authorization = none;
  oauth = none;
  tls_config = none;
}

encrypt_run : encrypt marking false random (with_password "pw") ≡ ok (with_password "cpw")
unfolding encrypt encrypt_basic_auth encrypt_text encrypt_cfb encrypt_authorization encrypt_oauth
    encrypt_tls_config
encrypt_run = refl

decrypt-encrypt_example :
    decrypt marking true (with_password "cpw")
    ≡ ok (with_password "pw", is_legacy false true && has_secret (with_password "pw"))
decrypt-encrypt_example =
    decrypt-encrypt marking marking-IsCipher false true random (with_password "pw")
      (with_password "cpw") encrypt_run

print-encrypt_example :
    print (new_public_secret_spec (with_password "cpw"))
    ≡ print (new_public_secret_spec (redact (with_password "pw")))
print-encrypt_example =
    print-encrypt marking marking-IsCipher false random (with_password "pw") (with_password "cpw")
      encrypt_run

abbrev token : String → Secret
token password = record {
  kind = "Secret";
  metadata = record {
    metadata = record { name = "token"; created_at = 1; updated_at = 1; version = 0; tags = [] };
    project = "p";
  };
  spec = with_password password;
}

abbrev of_token : Parameters
of_token = record { project = "p"; name = "token" }

abbrev secrets : ProjectDao Secret Secret
secrets = one_entity

replace-IsEncryptedUpdate_example :
    Replaces secrets of_token
      (IsEncryptedUpdate (encrypt marking false random) (token "pw") of_token)
      (token "cpw")
      (replace secrets (encrypt marking false random) 7 (token "pw") of_token (token "cpw"))
replace-IsEncryptedUpdate_example =
    replace-IsEncryptedUpdate secrets (encrypt marking false random) 7 (token "pw") of_token
      (token "cpw")

abbrev plain_codec : Codec SecretSpec (Document SecretSpec)
plain_codec = record { marshal = ok; unmarshal = λ kind e. ok e }

abbrev db : Dao
db = record { folder = "db" ∷ []; extension = "json"; case_sensitive = true }

plain_codec-IsLawful : IsLawful plain_codec db
plain_codec-IsLawful e data_ h = cc

abbrev disk : String → FileSystem (Document SecretSpec)
disk password = record {
  folders = [];
  files =
      (
        "db" ∷ "secrets" ∷ "p" ∷ "token.json" ∷ [],
        record {
          kind = "Secret";
          metadata = in_project (token password).metadata;
          body = with_password password;
        },
      )
      ∷ [];
}

abbrev after : FileSystem (Document SecretSpec)
after =
    (update (project_dao plain_codec db "Secret") (encrypt marking false random) 7 (token "pw")
      of_token (disk "old")).1

abbrev answer : PublicSecret
answer = new_public_secret (record {
  kind = "Secret";
  metadata = record {
    metadata = record { name = "token"; created_at = 1; updated_at = 7; version = 1; tags = [] };
    project = "p";
  };
  spec = with_password "cpw";
})

update_run :
    update
      (project_dao plain_codec db "Secret")
      (encrypt marking false random)
      7
      (token "pw")
      of_token
      (disk "old")
    ≡ (ok answer, after)
unfolding update map_result replace on_ok check_path with_project project_dao read_as
    perses.Database.File.get lookup same_path build_path with_extension generate_id flatten_metadata
    join plural_kind flatten_project check_name folders_to upsert write_document write_file
    file_name flatten new_metadata new_project_metadata update_project perses.Model.Metadata.update
    new_public_authorization new_public_basic_auth new_public_oauth new_public_secret
    new_public_secret_spec new_public_tls_config perses.Prelude.GoMap.insert updated
    project_document project_resource write_as encrypt encrypt_basic_auth encrypt_text encrypt_cfb
    encrypt_authorization encrypt_oauth encrypt_tls_config clean all_elements elements step
update_run = refl

get-update_example :
    get (project_dao plain_codec db "Secret") (encrypt marking false random) of_token after
    ≡ ok answer
get-update_example =
    get-update plain_codec db (encrypt marking false random) 7 (token "pw") of_token (disk "old")
      after answer plain_codec-IsLawful refl update_run
