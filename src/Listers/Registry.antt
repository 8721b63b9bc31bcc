-- ===== src/Listers/Registry.antt =====
-- The registry of pkg/util/kubernetes/k8sapi/listers.go, by which the autoscaler finds its listers. The
-- listers of `k8s.io/client-go` are the library's; those of pods and nodes answer as the world does.
use capten_autoscaler.Base.{Text, none, some, List, ◌≡◌, refl}
use capten_autoscaler.Cluster.Objects.{Pod, Node}
use capten_autoscaler.Cluster.Api.{Result, ok, err, Env, Action, pure, ◌>>=◌}
use capten_autoscaler.Listers.{NodeFilter, all_pods, all_nodes, list_filtered_nodes}
use capten_autoscaler.Readiness.{is_node_ready_and_schedulable}

-- The listers of a shared informer factory.
pub record InformerListers : Type 1 where
  pub PodDisruptionBudget : Type 0
  pub DaemonSetLister : Type 0
  pub ReplicationControllerLister : Type 0
  pub JobLister : Type 0
  pub ReplicaSetLister : Type 0
  pub StatefulSetLister : Type 0
  pub get_node : Text → Action (Result Node)
  pub list_pod_disruption_budgets : Action (Result (List PodDisruptionBudget))
  pub daemon_sets : DaemonSetLister
  pub replication_controllers : ReplicationControllerLister
  pub jobs : JobLister
  pub replica_sets : ReplicaSetLister
  pub stateful_sets : StatefulSetLister

-- Interfaces of the package.
pub record PodLister : Type 0 where
  pub list : Action (Result (List Pod))

pub record NodeLister : Type 0 where
  pub list : Action (Result (List Node))
  pub get : Text → Action (Result Node)

pub record PodDisruptionBudgetLister (Budget : Type 0) : Type 0 where
  pub list : Action (Result (List Budget))

module _ (env : Env) (lib : InformerListers) where
  -- `nodeListerImpl.Get`
  abbrev pub node_named : Result Node → Action (Result Node)
  node_named (err e) = pure (err e)
  node_named (ok node) = pure (ok node)

  -- `NewNodeLister`
  unfoldable pub new_node_lister : NodeFilter → NodeLister
  new_node_lister filter = record {
    list = list_filtered_nodes env filter;
    get = λ name. lib.get_node name >>= node_named;
  }

  -- `NewAllNodeLister`
  unfoldable pub new_all_node_lister : NodeLister
  unfolding new_node_lister
  new_all_node_lister = new_node_lister none

  -- `NewReadyNodeLister`
  unfoldable pub new_ready_node_lister : NodeLister
  unfolding new_node_lister
  new_ready_node_lister = new_node_lister (some is_node_ready_and_schedulable)

  -- `NewAllPodLister`
  unfoldable pub new_all_pod_lister : PodLister
  new_all_pod_lister = record { list = all_pods env }

  -- `NewPodDisruptionBudgetLister`
  unfoldable pub new_pod_disruption_budget_lister :
      PodDisruptionBudgetLister lib.PodDisruptionBudget
  new_pod_disruption_budget_lister = record { list = lib.list_pod_disruption_budgets }

-- What `listerRegistryImpl` keeps.
pub record ListerRegistryImpl (lib : InformerListers) : Type 0 where
  pub all_node : NodeLister
  pub ready_node : NodeLister
  pub all_pod : PodLister
  pub pod_disruption_budget : PodDisruptionBudgetLister lib.PodDisruptionBudget
  pub daemon_set : lib.DaemonSetLister
  pub replication_controller : lib.ReplicationControllerLister
  pub job : lib.JobLister
  pub replica_set : lib.ReplicaSetLister
  pub stateful_set : lib.StatefulSetLister

-- The interface: its methods.
pub record ListerRegistry (lib : InformerListers) : Type 0 where
  pub all_node_lister : NodeLister
  pub ready_node_lister : NodeLister
  pub all_pod_lister : PodLister
  pub pod_disruption_budget_lister : PodDisruptionBudgetLister lib.PodDisruptionBudget
  pub daemon_set_lister : lib.DaemonSetLister
  pub replication_controller_lister : lib.ReplicationControllerLister
  pub job_lister : lib.JobLister
  pub replica_set_lister : lib.ReplicaSetLister
  pub stateful_set_lister : lib.StatefulSetLister

module _ {lib : InformerListers} where
  -- The methods of `listerRegistryImpl`.
  unfoldable pub methods_of : ListerRegistryImpl lib → ListerRegistry lib
  methods_of r = record {
    all_node_lister = r.all_node;
    ready_node_lister = r.ready_node;
    all_pod_lister = r.all_pod;
    pod_disruption_budget_lister = r.pod_disruption_budget;
    daemon_set_lister = r.daemon_set;
    replication_controller_lister = r.replication_controller;
    job_lister = r.job;
    replica_set_lister = r.replica_set;
    stateful_set_lister = r.stateful_set;
  }

  -- `NewListerRegistry`, whose parameters are in this order.
  unfoldable pub new_lister_registry :
      (all_node ready_node : NodeLister)
      → PodLister
      → PodDisruptionBudgetLister lib.PodDisruptionBudget
      → lib.DaemonSetLister
      → lib.ReplicationControllerLister
      → lib.JobLister
      → lib.ReplicaSetLister
      → lib.StatefulSetLister
      → ListerRegistry lib
  unfolding methods_of
  new_lister_registry all_node ready_node all_pod budgets daemon_set replication_controller job
        replica_set stateful_set =
      methods_of (record {
        all_node = all_node;
        ready_node = ready_node;
        all_pod = all_pod;
        pod_disruption_budget = budgets;
        daemon_set = daemon_set;
        replication_controller = replication_controller;
        job = job;
        replica_set = replica_set;
        stateful_set = stateful_set;
      })

-- `NewListerRegistryWithDefaultListers`
unfoldable pub new_lister_registry_with_default_listers :
    Env → (lib : InformerListers) → ListerRegistry lib
unfolding new_lister_registry new_all_node_lister new_ready_node_lister new_all_pod_lister
    new_pod_disruption_budget_lister
new_lister_registry_with_default_listers env lib =
    new_lister_registry (new_all_node_lister env lib) (new_ready_node_lister env lib)
      (new_all_pod_lister env lib) (new_pod_disruption_budget_lister env lib) lib.daemon_sets
      lib.replication_controllers lib.jobs lib.replica_sets lib.stateful_sets

-- A pass of the autoscaler lists by the default registry.
default_lists :
    (env : Env) (lib : InformerListers)
    → ((new_lister_registry_with_default_listers env lib).all_pod_lister.list ≡ all_pods env)
      × ((new_lister_registry_with_default_listers env lib).all_node_lister.list ≡ all_nodes env)
unfolding new_lister_registry_with_default_listers all_nodes
default_lists env lib = (refl, refl)
