-- ===== src/Main.antt =====
-- main.go: the program, which reads a credential, and the set-up of the autoscaler, which it does not
-- call. Signals end the context of `Start`, as the event of that run which cancels it.
mod Tests
use capten_autoscaler.Base.{ℕ, ℤ, pos, Text, text, Dict}
use capten_autoscaler.Cluster.Api.{Result, ok, err, Env, Outcome, done, exited}
use capten_autoscaler.Autoscaler.{Float64, NodeInfo}
use capten_autoscaler.Autoscaler.Wiring.{Libraries, Autoscaler, new_autoscaler}
use capten_autoscaler.Azure.New.{AzureLibrary, Client, new_client}
use capten_autoscaler.Vault.{Credentials, get_generic_credential}

-- What is printed; `log.Fatalf` ends the program.
abbrev pub printed_or_exit : Result (Dict Text Text) → Outcome (Dict Text Text)
printed_or_exit (ok credential) = done credential
printed_or_exit (err e) = exited

-- `main`
unfoldable pub main : Credentials → Outcome (Dict Text Text)
unfolding get_generic_credential
main vault = printed_or_exit (get_generic_credential vault (text "azsecret") (text "azsecret"))

-- The libraries that the set-up calls. `literal` is a constant as a `float64`.
pub record SetupLibrary (F : Type 0) (lib : Libraries F) (float : Float64) : Type 1 where
  pub Config : Type 0
  pub getenv : Text → Text
  pub build_config_from_flags : (master_url kubeconfig : Text) → Result Config
  pub new_for_config : Config → Result lib.Client
  pub literal : ℕ → float.F

module _ {F : Type 0} (lib : Libraries F) (float : Float64) (setup : SetupLibrary F lib float)
    (azure : AzureLibrary) (env : Env) where
  abbrev pub client_of : Result setup.Config → Result lib.Client
  client_of (err e) = err e
  client_of (ok config) = setup.new_for_config config

  -- `getKubeConfig`
  unfoldable pub get_kube_config : Result lib.Client
  get_kube_config =
      client_of (setup.build_config_from_flags (text "") (setup.getenv (text "KUBECONFIG")))

  abbrev pub node_info : NodeInfo float
  node_info = record { cpu = setup.literal 2; memory = pos 7816684000; min = pos 1; max = pos 3 }

  abbrev pub Made : Type 0
  Made = (client : lib.Client) × Autoscaler lib client float (Client azure)

  abbrev pub with_cloud : lib.Client → Result (Client azure) → Outcome Made
  with_cloud client (err e) = exited
  with_cloud client (ok cloud) = done (client, new_autoscaler lib client env node_info cloud)

  abbrev pub with_client : Result lib.Client → Outcome Made
  with_client (err e) = exited
  with_client (ok client) =
      with_cloud client (new_client azure (setup.getenv (text "AZURE_SUBSCRIPTION_ID")))

  -- `setupAutoscaler`, up to the start of the autoscaler that it makes.
  unfoldable pub setup_autoscaler : Outcome Made
  unfolding get_kube_config new_client new_autoscaler
  setup_autoscaler = with_client get_kube_config
