-- ===== src/Drain/Filter/Calls.antt =====
-- The filters only read: a filter of a drain makes no call but the lookup of a DaemonSet.
use capten_autoscaler.Base.{
  Text, ◌==◌, text_Eq, All-append, not, none, some, Option, List, [], ◌∷◌, All, if◌then◌else◌,
}
use capten_autoscaler.Cluster.Objects.{Pod, OwnerRef, is_finished}
use capten_autoscaler.Cluster.Api.{History, get_daemon_set, Env, pure, ask}
use capten_autoscaler.Cluster.Keeps.{Admits, Keeps, Keeps-pure, Keeps-ask, Keeps-if, Keeps-bind}
use capten_autoscaler.Drain.Filter.{
  Helper, PodFilter, PodDeleteStatus, daemon_set, okay, daemon_set_status, daemon_set_of,
  base_filters, make_filters, run_filters, filter_pods, no_status,
}

module _ (I : History → Type 0) where
  abbrev pub FilterKeeps : PodFilter → Type 0
  FilterKeeps filter = (pod : Pod) → Keeps I (filter pod)

  run_filters-Keeps :
      (filters : List PodFilter) (status : PodDeleteStatus) (pod : Pod)
      → All FilterKeeps filters
      → Keeps I (run_filters filters status pod)
  unfolding run_filters
  run_filters-Keeps [] status pod k = Keeps-pure I status
  run_filters-Keeps (f ∷ fs) status pod k =
      Keeps-bind I (f pod) (λ s. if not s.delete then pure s else run_filters fs s pod) (k.0 pod)
        (λ s.
          Keeps-if I (not s.delete) (pure s) _ (Keeps-pure I s) (run_filters-Keeps fs s pod k.1))

  pub filter_pods-Keeps :
      (pods : List Pod) (filters : List PodFilter)
      → All FilterKeeps filters
      → Keeps I (filter_pods pods filters)
  unfolding filter_pods
  filter_pods-Keeps [] filters k = Keeps-pure I []
  filter_pods-Keeps (pod ∷ pods) filters k =
      Keeps-bind I (run_filters filters no_status pod) _ (run_filters-Keeps filters no_status pod k)
        (λ status.
          Keeps-bind I (filter_pods pods filters) _ (filter_pods-Keeps pods filters k)
            (λ rest. Keeps-pure I _))

  module _ (env : Env) (d : Helper)
      (lookup_free : (ns name : Text) → Admits I (get_daemon_set ns name)) where
    daemon_set_of-Keeps : (c : Option OwnerRef) (pod : Pod) → Keeps I (daemon_set_of env d c pod)
    unfolding daemon_set_of
    daemon_set_of-Keeps none pod = Keeps-pure I _
    daemon_set_of-Keeps (some ref) pod =
        Keeps-if I (not (ref.kind == daemon_set)) (pure okay) _ (Keeps-pure I okay) (
          Keeps-if I (is_finished pod) (pure okay) _ (Keeps-pure I okay) (
            Keeps-bind I
              (ask (get_daemon_set pod.namespace ref.name)
                (λ h. env.on_get_daemon_set h pod.namespace ref.name))
              (λ answer. pure (daemon_set_status d answer))
              (Keeps-ask I _ _ (lookup_free pod.namespace ref.name))
              (λ answer. Keeps-pure I (daemon_set_status d answer))))

    base_filters-Keeps : All FilterKeeps (base_filters env d)
    unfolding base_filters
    base_filters-Keeps = (
      (λ pod. record { at = λ h i. i }),
      (
        (λ pod. daemon_set_of-Keeps pod.controller pod),
        ((λ pod. Keeps-pure I _), ((λ pod. Keeps-pure I _), ((λ pod. Keeps-pure I _), tt))),
      ),
    )

    pub make_filters-Keeps :
        All FilterKeeps d.additional_filters → All FilterKeeps (make_filters env d)
    unfolding make_filters
    make_filters-Keeps more =
        All-append FilterKeeps (base_filters env d) d.additional_filters base_filters-Keeps more
