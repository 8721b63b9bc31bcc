-- ===== src/Main/Tests.antt =====
-- Runs of the program with a vault.
use capten_autoscaler.Base.{text, [], ◌∷◌, ◌≡◌, refl}
use capten_autoscaler.Cluster.Api.{failure, ok, err, done, exited}
use capten_autoscaler.Vault.{Credentials, get_generic_credential}
use capten_autoscaler.Main.{main}

abbrev open_vault : Credentials
open_vault = record {
  Reader = Unit {0};
  new_credential_reader = ok tt;
  get_credential = λ r kind entity identifier. ok ((entity, kind) ∷ []);
}

abbrev sealed_vault : Credentials
sealed_vault = record open_vault {
  get_credential = λ r kind entity identifier. err (failure (text "sealed"));
}

prints : main open_vault ≡ done ((text "azsecret", text "generic") ∷ [])
unfolding main
prints = refl

ends : main sealed_vault ≡ exited
unfolding main
ends = refl

sealed_text :
    get_generic_credential sealed_vault (text "a") (text "b")
    ≡ err (failure (text "failed while get credential, error : sealed"))
unfolding get_generic_credential
sealed_text = refl
