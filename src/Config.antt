-- ===== src/Config.antt =====
-- pkg/config/kubernetes.go: the configuration of the client of the cluster's API. A configuration of
-- the library has the two fields that the code reads or writes; `uri.Query()` is a field of the URL.
pub mod Origin
mod Tests
use capten_autoscaler.Base.{
  Text, text, text_Eq, is_empty, Bool, true, false, not, ◌&&◌, Option, none, some, List, [], ◌∷◌,
  ◌++◌, Dict, lookup, ◌==◌, any, if◌then◌else◌,
}
use capten_autoscaler.Cluster.Api.{Error, failure, Result, ok, err}

-- `rest.Config`
pub record RestConfig : Type 0 where
  pub host : Text
  pub bearer_token : Text

-- `url.URL`
pub record Url : Type 0 where
  pub scheme : Text
  pub host : Text
  pub query : Dict Text (List Text)

-- The libraries and the files that they read.
pub record Kube : Type 0 where
  pub in_cluster_config : Result RestConfig
  -- the loading rules with an explicit path, and a server that overrides the file's
  pub client_config : (path : Text) (server : Text) → Result RestConfig
  pub read_file : Text → Result Text

abbrev pub default_service_account_file : Text
default_service_account_file = text "/var/run/secrets/kubernetes.io/serviceaccount/token"

abbrev pub is_one_of : List Text → Text → Bool
is_one_of texts t = any (λ s. s == t) texts

-- `strconv.ParseBool`
unfoldable pub parse_bool : Text → Result Bool
parse_bool t =
    if is_one_of (text "1" ∷ text "t" ∷ text "T" ∷ text "true" ∷ text "TRUE" ∷ text "True" ∷ []) t
    then ok true
    else if is_one_of
        (text "0" ∷ text "f" ∷ text "F" ∷ text "false" ∷ text "FALSE" ∷ text "False" ∷ []) t
    then ok false
    else err (failure (text "invalid syntax"))

-- `getConfigOverrides`, which returns no error: the server.
unfoldable pub get_config_overrides : Url → Text
get_config_overrides uri =
    if not (is_empty uri.scheme) && not (is_empty uri.host)
    then uri.scheme ++ (text "://" ++ uri.host)
    else []

abbrev pub first_of : Option (List Text) → Option Text
first_of (some (t ∷ ts)) = some t
first_of _ = none

-- `opts[key][0]`, if there is one.
abbrev pub option_of : Url → Text → Option Text
option_of uri key = first_of (lookup key uri.query)

abbrev pub bool_or : Bool → Option Text → Result Bool
bool_or default none = ok default
bool_or default (some t) = parse_bool t

abbrev pub override_host : Text → RestConfig → RestConfig
override_host server c = if is_empty server then c else record c { host = server }

abbrev pub overridden : Text → Result RestConfig → Result RestConfig
overridden server (err e) = err e
overridden server (ok c) = ok (override_host server c)

abbrev pub text_or_empty : Option Text → Text
text_or_empty none = []
text_or_empty (some t) = t

abbrev pub with_token : RestConfig → Result Text → RestConfig
with_token c (ok token) = record c { bearer_token = token }
with_token c (err e) = c

module _ (kube : Kube) (uri : Url) where
  abbrev pub outside_config : Text → Text → Result RestConfig
  outside_config auth_file server =
      if not (is_empty auth_file)
      then kube.client_config auth_file server
      else ok (record { host = server; bearer_token = [] })

  abbrev pub base_config : Result Bool → Result RestConfig
  base_config (err e) = err e
  base_config (ok true) = overridden (get_config_overrides uri) kube.in_cluster_config
  base_config (ok false) =
      outside_config (text_or_empty (option_of uri (text "auth"))) (get_config_overrides uri)

  abbrev pub with_account : RestConfig → Result Bool → Result RestConfig
  with_account c (err e) = err e
  with_account c (ok false) = ok c
  with_account c (ok true) = ok (with_token c (kube.read_file default_service_account_file))

  abbrev pub check_host : Result RestConfig → Result RestConfig
  check_host (err e) = err e
  check_host (ok c) =
      if is_empty c.host
      then err (failure (text "invalid kubernetes master url specified"))
      else with_account c (bool_or false (option_of uri (text "useServiceAccount")))

  -- `GetKubeClientConfig`
  unfoldable pub get_kube_client_config : Result RestConfig
  unfolding get_config_overrides parse_bool
  get_kube_client_config =
      check_host (base_config (bool_or true (option_of uri (text "inClusterConfig"))))
