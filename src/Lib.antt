-- ===== src/Lib.antt =====
-- capten-autoscaler: the autoscaler of a Kubernetes cluster, which every three minutes asks its cloud
-- for more worker nodes if pods find no room, and retires nodes if there are more than the pods need.
--
-- The parts, and how they work together:
--   * pkg/autoscaler/autoscaler.go (Autoscaler) is the loop. `reconcile` lists pods and worker nodes,
--     sizes the need and either asks the cloud to scale up or runs `scaleDown`, here `retire`, whose
--     rounds cordon a node, drain it, ask the cloud to take its machine away and delete the node.
--     Autoscaler/Spec says what a pass may ask of the cloud, as the data type `Pass`, without its steps.
--   * pkg/util/kubernetes/drain (Drain) is the drain. drain.go and filter.go are Drain/Filter (which
--     pods are deleted), Drain/Wait (`waitForDelete`) and Drain/Evict (evictions and deletions);
--     default.go and `GetPodsForDeletion` are Drain/Run; cordon.go is Drain/Cordon.
--   * pkg/util/kubernetes/k8sapi/listers.go (Listers) and ready.go (Readiness) read the cluster.
--   * pkg/cloudprovider/azure/azure.go (Azure) is a cloud provider: `ScaleUp` and `ScaleDown` over the
--     answers of the SDK. The autoscaler knows a provider by its interface only.
--   * pkg/cloudprovider/aws (Aws) is another provider, a cache of scaling groups with node groups on top.
--     autoscaling_group.go is Aws/Groups (register, sizes, deletions), Aws/Placeholders and Aws/Refresh
--     (`regenerate`, with cache.go and wrapper.go); manager.go is Aws/Manager, Aws/Discovery and the
--     start in Aws/Run; cloud_provider.go is Aws/NodeGroup and Aws/Refs (ids of providers). Aws/State
--     has the state: groups are shared by pointer, so they live in a heap, and an action takes the
--     state and returns an outcome and a state. Aws/Types has the types, Aws/DeepEqual
--     `reflect.DeepEqual`, Aws/Run the operations as steps of the state, Aws/Answers the getters.
--   * Cluster/Objects has the API objects with the fields that the code reads. Cluster/Api has the
--     calls that the code makes, the world that answers them, and actions, which are functions of the
--     calls made so far; Cluster/Laws reasons about them, and Cluster/Keeps follows an invariant of
--     the calls through an action (Autoscaler/Drained does so through `scaleDown`, Autoscaler/Emptied
--     through a run of `Start`). Base has numbers, lists, texts and maps.
--   * pkg/config/kubernetes.go (Config) makes the configuration of the API's client from a URL.
--   * pkg/util/kubernetes/k8sapi/factory.go and event_sink_logging_wrapper.go (Events) make the recorder
--     of events; node.go is NodePatch, testlisters.go Listers/TestListers, the registry of listers.go
--     Listers/Registry. pkg/vault/vault.go is Vault; aws_util.go and the clock of cache.go are Aws/Util.
--   * main.go (Main) reads a credential and has the set-up of the autoscaler; `NewAutoscaler` is
--     Autoscaler/Wiring. Deployment puts the Azure provider in the place of the world's cloud.
--   * Sample is a small world for the tests, which stand in a module Tests beside each component.
--
-- The world, the record `Env`, is an argument of every definition and an arbitrary function of the
-- calls so far: API server, cloud provider, clock, context, and the libraries that the code calls.
-- A Go function is named as in the source, in this library's spelling: `evictPods` is `evict_pods`. A
-- panic, the end of the program and a loop that goes on are outcomes of their own.
--   * `wait.PollImmediate` is a parameter; `IsPollImmediate` is its documented behaviour.
--   * That the program goes on needs a world that answers: `IsAnswering` of Autoscaler/Ends says that the
--     API server returns a pod or an error, the cloud returns, polling ends where its tries do, and the
--     context is done in time. Actions that end are `Ends` of Cluster/Ends, beside each component.
--   * `utilerrors.NewAggregate`, channels and `range` over maps are the world's; `IsFaithful` is what
--     the code relies on.
--   * Go's `float64` is the interface `Float64`.
--   * `int64` and `int32` wrap around where the source computes with them.
--   * AWS, its clock, `range` over maps and the expiry of cached instance types are the record `Service`
--     of Aws/State, functions of the requests made so far. Fields of SDK values that the code passes on
--     without a look stay opaque. Each operation of the AWS cache holds its mutex: it is one step.
--     Node groups and the manager read sizes outside of it; here none of their operations runs within
--     another one.
-- The goroutines of `evictPods` run one after the other in an order that the world chooses: they share
-- nothing but the world, whose answers may depend on every call before.
--
-- The retry loop of an eviction has no bound of its own but the context's; it is given two rounds more
-- than the time limit has intervals of five seconds, the sleep between two attempts.
--
-- Not modelled: the table of instance types of pkg/cloudprovider/aws, which is generated; the libraries
-- behind the informers, the recorders of events, the vault and the SDKs, which are parameters;
-- `NewConfigMapListerForNamespace`, which only calls them; what is only printed or logged, but for the
-- log of the sink of events. The numbers in two error texts of `IncreaseSize` and `DecreaseTargetSize`
-- and the quotes in those of the discovery are left out.
pub mod Autoscaler
pub mod Aws
pub mod Config
pub mod Azure
pub mod Base
pub mod Cluster
pub mod Deployment
pub mod Drain
pub mod Events
pub mod Listers
pub mod Main
pub mod NodePatch
pub mod Vault
pub mod Readiness
pub mod Sample
