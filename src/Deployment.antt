-- ===== src/Deployment.antt =====
-- The autoscaler with the Azure provider, as main.go puts them together: `ScaleUp` and `ScaleDown` of
-- pkg/cloudprovider/cloudprovider.go are those of pkg/cloudprovider/azure/azure.go.
pub mod Requests
mod Tests
use capten_autoscaler.Base.{List, [], ◌∷◌, ◌++◌}
use capten_autoscaler.Cluster.Api.{Call, scale_up, scale_down, History, Env}
use capten_autoscaler.Azure.{Request, Sdk, scale_up_set, delete_machine}

-- The SDK's answers may depend on all that the program has called before.
abbrev pub Cloud : Type 0
Cloud = History → Sdk

unfoldable pub with_azure : Cloud → Env → Env
unfolding scale_up_set delete_machine
with_azure cloud env = record env {
  on_scale_up = λ h count. (scale_up_set (cloud h) count).0;
  on_scale_down = λ h node_name. (delete_machine (cloud h) node_name).0;
}

-- What the calls recorded ask of Azure's API, newest first.
unfoldable pub azure_requests : Cloud → History → List Request
unfolding scale_up_set delete_machine
azure_requests cloud [] = []
azure_requests cloud (scale_up count ∷ h) =
    (scale_up_set (cloud h) count).1 ++ azure_requests cloud h
azure_requests cloud (scale_down node_name ∷ h) =
    (delete_machine (cloud h) node_name).1 ++ azure_requests cloud h
azure_requests cloud (_ ∷ h) = azure_requests cloud h
