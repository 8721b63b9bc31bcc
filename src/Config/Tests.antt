-- ===== src/Config/Tests.antt =====
-- A URL that overrides the server of the cluster's own configuration.
use capten_autoscaler.Base.{text, text_eq, lookup, is_empty, false, [], ◌∷◌, ◌≡◌, refl}
use capten_autoscaler.Cluster.Api.{failure, ok, err}
use capten_autoscaler.Config.{
  RestConfig, Url, Kube, get_config_overrides, parse_bool, get_kube_client_config,
}
use capten_autoscaler.Config.Origin.{IsHost, get_kube_client_config-IsHost}

abbrev in_cluster : Kube
in_cluster = record {
  in_cluster_config = ok (record { host = text "https://10.0.0.1:443"; bearer_token = [] });
  client_config = λ path server. err (failure (text "no such file"));
  read_file = λ path. ok (text "token");
}

abbrev api_url : Url
api_url = record {
  scheme = text "https";
  host = text "api.example.com";
  query = (text "useServiceAccount", text "true" ∷ []) ∷ [];
}

abbrev api_config : RestConfig
api_config = record { host = text "https://api.example.com"; bearer_token = text "token" }

get_kube_client_config-IsHost_example :
    IsHost in_cluster api_url (text "https://api.example.com")
    × (is_empty (text "https://api.example.com") ≡ false)
unfolding get_kube_client_config parse_bool get_config_overrides lookup text_eq
get_kube_client_config-IsHost_example =
    get_kube_client_config-IsHost in_cluster api_url api_config refl
