-- ===== src/Azure/New.antt =====
-- `New` of pkg/cloudprovider/azure/azure.go and of pkg/cloudprovider/cloudprovider.go.
use capten_autoscaler.Base.{Text, text, ◌++◌}
use capten_autoscaler.Cluster.Api.{failure, message, Result, ok, err}

-- `azidentity` and `armcompute` of the SDK.
pub record AzureLibrary : Type 1 where
  pub Credential : Type 0
  pub ClientFactory : Type 0
  pub new_default_azure_credential : Result Credential
  pub new_client_factory : (subscription_id : Text) → Credential → Result ClientFactory

module _ (lib : AzureLibrary) where
  -- `client`
  pub record Client : Type 0 where
    pub subscription_id : Text
    pub client_factory : lib.ClientFactory

  abbrev pub client_with : Text → Result lib.ClientFactory → Result Client
  client_with subscription_id (err e) =
      err (failure (text "failed to create client: " ++ message e))
  client_with subscription_id (ok factory) =
      ok (record { subscription_id = subscription_id; client_factory = factory })

  abbrev pub with_credential : Text → Result lib.Credential → Result Client
  with_credential subscription_id (err e) =
      err (failure (text "failed to obtain a credential: " ++ message e))
  with_credential subscription_id (ok credential) =
      client_with subscription_id (lib.new_client_factory subscription_id credential)

  -- `azure.New`
  unfoldable pub new_client : (subscription_id : Text) → Result Client
  new_client subscription_id = with_credential subscription_id lib.new_default_azure_credential

  -- `cloudprovider.New`, which knows one provider whatever its name.
  unfoldable pub new_cloud_provider : (provider_name subscription_id : Text) → Result Client
  unfolding new_client
  new_cloud_provider provider_name subscription_id = new_client subscription_id
