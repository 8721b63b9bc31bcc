-- ===== src/Config/Origin.antt =====
-- Where the host and the token of a configuration come from.
use capten_autoscaler.Base.{
  Text, text, text_Eq, is_empty, Bool, true, false, [], ◌∷◌, ◌≡◌, ◌⊎◌, refl, sym, ap, subst, inl,
  inr, Bool-cases,
}
use capten_autoscaler.Cluster.Api.{Result, ok, err}
use capten_autoscaler.Config.{
  RestConfig, Url, Kube, default_service_account_file, bool_or, option_of, get_config_overrides,
  overridden, text_or_empty, with_token, outside_config, base_config, with_account, check_host,
  get_kube_client_config,
}

module _ (kube : Kube) (uri : Url) where
  -- `opts["auth"][0]`
  abbrev pub auth_file : Text
  auth_file = text_or_empty (option_of uri (text "auth"))

  -- The host is the URL's server, or, of a cluster or a file, that of the configuration loaded.
  abbrev pub IsHost : Text → Type 0
  IsHost host =
      (host ≡ get_config_overrides uri)
      ⊎ (((base : RestConfig) × (kube.in_cluster_config ≡ ok base)
            × (host ≡ base.host)
            × (get_config_overrides uri ≡ []))
          ⊎ ((base : RestConfig) × (kube.client_config auth_file (get_config_overrides uri)
                ≡ ok base)
              × (host ≡ base.host)))

  -- A result that is an error, or a configuration with such a host.
  abbrev HasHost : Result RestConfig → Type 0
  HasHost (err e) = Unit
  HasHost (ok c) = IsHost c.host

  abbrev HasGoodHost : Result RestConfig → Type 0
  HasGoodHost (err e) = Unit
  HasGoodHost (ok c) = IsHost c.host × (is_empty c.host ≡ false)

  overridden-HasHost :
      (r : Result RestConfig) (server : Text)
      → kube.in_cluster_config ≡ r
      → get_config_overrides uri ≡ server
      → HasHost (overridden server r)
  overridden-HasHost (err e) server from at = tt
  overridden-HasHost (ok c) [] from at = inr (inl (c, from, refl, at))
  overridden-HasHost (ok c) (b ∷ server) from at = inl (sym at)

  client_config-HasHost :
      (r : Result RestConfig)
      → kube.client_config auth_file (get_config_overrides uri) ≡ r
      → HasHost r
  client_config-HasHost (err e) from = tt
  client_config-HasHost (ok c) from = inr (inr (c, from, refl))

  outside_config-HasHost : HasHost (outside_config kube uri auth_file (get_config_overrides uri))
  outside_config-HasHost = by_file auth_file refl
    where
      by_file :
          (path : Text)
          → auth_file ≡ path
          → HasHost (outside_config kube uri path (get_config_overrides uri))
      by_file [] e = inl refl
      by_file (b ∷ path) e =
          client_config-HasHost (kube.client_config (b ∷ path) (get_config_overrides uri))
            (ap (λ p. kube.client_config p (get_config_overrides uri)) e)

  base_config-HasHost : (r : Result Bool) → HasHost (base_config kube uri r)
  base_config-HasHost (err e) = tt
  base_config-HasHost (ok true) =
      overridden-HasHost kube.in_cluster_config (get_config_overrides uri) refl refl
  base_config-HasHost (ok false) = outside_config-HasHost

  with_token-HasGoodHost :
      (c : RestConfig) (r : Result Text)
      → IsHost c.host
      → is_empty c.host ≡ false
      → HasGoodHost (ok (with_token c r))
  with_token-HasGoodHost c (ok token) h e = (h, e)
  with_token-HasGoodHost c (err x) h e = (h, e)

  with_account-HasGoodHost :
      (c : RestConfig) (r : Result Bool)
      → IsHost c.host
      → is_empty c.host ≡ false
      → HasGoodHost (with_account kube uri c r)
  with_account-HasGoodHost c (err x) h e = tt
  with_account-HasGoodHost c (ok true) h e =
      with_token-HasGoodHost c (kube.read_file default_service_account_file) h e
  with_account-HasGoodHost c (ok false) h e = (h, e)

  check_host-HasGoodHost : (r : Result RestConfig) → HasHost r → HasGoodHost (check_host kube uri r)
  check_host-HasGoodHost (err e) h = tt
  check_host-HasGoodHost (ok c) h = elim (Bool-cases (is_empty c.host)) [
    | inl none_given ↦ rw none_given tt
    | inr given ↦ rw given (
        with_account-HasGoodHost c (bool_or false (option_of uri (text "useServiceAccount"))) h
          given)
  ]

  good_host :
      (r : Result RestConfig) (c : RestConfig)
      → HasGoodHost r
      → r ≡ ok c
      → IsHost c.host × (is_empty c.host ≡ false)
  good_host r c h e = subst HasGoodHost e h

  -- A configuration that is returned has a host: it is the server that the URL gives, or the host of
  -- the cluster's own configuration where the URL gives none, or that of the file's configuration that
  -- the URL names, loaded with the URL's server.
  pub get_kube_client_config-IsHost :
      (c : RestConfig)
      → get_kube_client_config kube uri ≡ ok c
      → IsHost c.host × (is_empty c.host ≡ false)
  unfolding get_kube_client_config
  get_kube_client_config-IsHost c e =
      good_host (get_kube_client_config kube uri) c
        (check_host-HasGoodHost
          (base_config kube uri (bool_or true (option_of uri (text "inClusterConfig"))))
          (base_config-HasHost (bool_or true (option_of uri (text "inClusterConfig")))))
        e
