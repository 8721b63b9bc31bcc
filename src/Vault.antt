-- ===== src/Vault.antt =====
-- pkg/vault/vault.go: a credential of the vault. Its client is the library's.
use capten_autoscaler.Base.{Text, text, ◌++◌, Dict}
use capten_autoscaler.Cluster.Api.{Error, failure, message, Result, ok, err}

-- `credentials` of the library: its reader reads a credential by type, entity and identifier.
pub record Credentials : Type 1 where
  pub Reader : Type 0
  pub new_credential_reader : Result Reader
  pub get_credential : Reader → (kind entity identifier : Text) → Result (Dict Text Text)

abbrev pub credential_type : Text
credential_type = text "generic"

-- `fmt.Errorf` with `%v` of an error keeps its text only.
abbrev pub told : Text → Error → Error
told what e = failure (what ++ message e)

module _ (lib : Credentials) where
  abbrev pub credential_or_error : Result (Dict Text Text) → Result (Dict Text Text)
  credential_or_error (ok credential) = ok credential
  credential_or_error (err e) = err (told (text "failed while get credential, error : ") e)

  abbrev pub read_with : Text → Text → Result lib.Reader → Result (Dict Text Text)
  read_with entity identifier (err e) =
      err (told (text "failed while creating Credential Reader, error : ") e)
  read_with entity identifier (ok reader) =
      credential_or_error (lib.get_credential reader credential_type entity identifier)

  -- `GetGenericCredential`
  unfoldable pub get_generic_credential : (entity identifier : Text) → Result (Dict Text Text)
  get_generic_credential entity identifier = read_with entity identifier lib.new_credential_reader
