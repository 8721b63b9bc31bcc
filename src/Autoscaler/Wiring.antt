-- ===== src/Autoscaler/Wiring.antt =====
-- `NewAutoscaler` of pkg/autoscaler/autoscaler.go: what an autoscaler is made of.
use capten_autoscaler.Base.{true}
use capten_autoscaler.Cluster.Api.{Env}
use capten_autoscaler.Listers.Registry.{
  InformerListers, ListerRegistry, new_lister_registry_with_default_listers,
}
use capten_autoscaler.Events.{RecordLibrary, create_event_recorder}
use capten_autoscaler.Autoscaler.{Float64, NodeInfo}

-- The libraries: the client of the cluster's API, its informers and its recorders of events.
pub record Libraries (F : Type 0) : Type 1 where
  pub Client : Type 0
  pub listers_of : Client → InformerListers
  pub recording_of : Client → RecordLibrary F

-- `Autoscaler`, with a client and a cloud provider.
pub record Autoscaler {F : Type 0} (lib : Libraries F) (client : lib.Client) (float : Float64)
    (Cloud : Type 0) : Type 0 where
  pub listers : ListerRegistry (lib.listers_of client)
  pub recorder : (lib.recording_of client).Recorder
  pub node : NodeInfo float
  pub cloud_provider : Cloud

unfoldable pub new_autoscaler :
    {F : Type 0} (lib : Libraries F) (client : lib.Client) (env : Env) {float : Float64}
    {Cloud : Type 0}
    → NodeInfo float
    → Cloud
    → Autoscaler lib client float Cloud
unfolding new_lister_registry_with_default_listers create_event_recorder
new_autoscaler lib client env info cloud = record {
  listers = new_lister_registry_with_default_listers env (lib.listers_of client);
  recorder = create_event_recorder (lib.recording_of client) true;
  node = info;
  cloud_provider = cloud;
}
