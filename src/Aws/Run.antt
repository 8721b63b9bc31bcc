-- ===== src/Aws/Run.antt =====
-- pkg/cloudprovider/aws: what the provider's callers ask of it, one operation after the other, as steps
-- of the state: no operation runs within another one. A later one follows however the one before ended.
pub mod Reach
pub mod Barren
mod Tests
use capten_autoscaler.Base.{ℕ, ℤ, pos, Text, Option, none, some, List, []}
use capten_autoscaler.Cluster.Objects.{Node}
use capten_autoscaler.Cluster.Api.{Error, Outcome}
use capten_autoscaler.Aws.Types.{InstanceRef}
use capten_autoscaler.Aws.State.{Service, State, Act, pure, continue}
use capten_autoscaler.Aws.Groups.{parse_explicit_asgs, set_asg_size}
use capten_autoscaler.Aws.Manager.{force_refresh, refresh, manager_delete_instances}
use capten_autoscaler.Aws.NodeGroup.{NodeGroup, increase_size, decrease_target_size, delete_nodes}

pub data Operation : Type 0 where
  refresh_cache : Operation
  force_refresh_cache : Operation
  set_size : (asg : ℕ) (size : ℤ) → Operation
  delete_by_ref : (instances : List InstanceRef) → Operation
  increase : (group : NodeGroup) (delta : ℤ) → Operation
  decrease : (group : NodeGroup) (delta : ℤ) → Operation
  delete_by_node : (group : NodeGroup) (nodes : List Node) → Operation

abbrev pub perform : Service → Operation → Act (Option Error)
perform svc refresh_cache = refresh svc
perform svc force_refresh_cache = force_refresh svc
perform svc (set_size asg size) = set_asg_size svc asg size
perform svc (delete_by_ref instances) = manager_delete_instances svc instances
perform svc (increase group delta) = increase_size svc group delta
perform svc (decrease group delta) = decrease_target_size svc group delta
perform svc (delete_by_node group nodes) = delete_nodes svc group nodes

-- The empty cache, before its explicit groups are read.
abbrev pub initial : State
initial = record {
  next = 0;
  cell = λ p. none;
  registered_asgs = [];
  asg_to_instances = [];
  instance_to_asg = [];
  instance_status = [];
  instance_lifecycle = [];
  explicitly_configured = [];
  autoscaling_options = [];
  asg_instance_type_cache = [];
  last_refresh = pos 0;
  log = [];
}

-- `newASGCache`
abbrev pub new_asg_cache : Service → List Text → Outcome (Option Error) × State
new_asg_cache svc specs = parse_explicit_asgs svc specs initial

abbrev pub refresh_new : Service → Option Error → Act (Option Error)
refresh_new svc (some e) = pure (some e)
refresh_new svc none = force_refresh svc

-- `createAWSManagerInternal`
unfoldable pub create_aws_manager : Service → Outcome (Option Error) × State
create_aws_manager svc =
    continue (new_asg_cache svc []).0 (refresh_new svc) (new_asg_cache svc []).1

-- The states that operations lead to, from a new manager or a new cache with explicit groups.
pub data Reachable (svc : Service) : State → Type 0 where
  created : Reachable svc (create_aws_manager svc).1
  configured : (specs : List Text) → Reachable svc (new_asg_cache svc specs).1
  after : {s : State} → Reachable svc s → (o : Operation) → Reachable svc (perform svc o s).1
