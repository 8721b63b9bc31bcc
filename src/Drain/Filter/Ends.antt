-- ===== src/Drain/Filter/Ends.antt =====
-- The filters of a drain end.
use capten_autoscaler.Base.{
  not, none, some, Option, List, [], ◌∷◌, All, All-append, ◌==◌, text_Eq, if◌then◌else◌,
}
use capten_autoscaler.Cluster.Objects.{Pod, OwnerRef, is_finished}
use capten_autoscaler.Cluster.Api.{Env, pure}
use capten_autoscaler.Cluster.Ends.{Ends, Ends-pure, Ends-if, Ends-bind}
use capten_autoscaler.Drain.Filter.{
  Helper, PodFilter, PodDeleteStatus, daemon_set, daemon_set_of, base_filters, make_filters,
  run_filters, filter_pods, no_status,
}

abbrev pub FilterEnds : PodFilter → Type 0
FilterEnds filter = (pod : Pod) → Ends (filter pod)

run_filters-Ends :
    (filters : List PodFilter) (status : PodDeleteStatus) (pod : Pod)
    → All FilterEnds filters
    → Ends (run_filters filters status pod)
unfolding run_filters
run_filters-Ends [] status pod k = Ends-pure status
run_filters-Ends (f ∷ fs) status pod k =
    Ends-bind (f pod) (λ s. if not s.delete then pure s else run_filters fs s pod) (k.0 pod)
      (λ s. Ends-if (not s.delete) (pure s) _ (Ends-pure s) (run_filters-Ends fs s pod k.1))

pub filter_pods-Ends :
    (pods : List Pod) (filters : List PodFilter)
    → All FilterEnds filters
    → Ends (filter_pods pods filters)
unfolding filter_pods
filter_pods-Ends [] filters k = Ends-pure []
filter_pods-Ends (pod ∷ pods) filters k =
    Ends-bind (run_filters filters no_status pod) _ (run_filters-Ends filters no_status pod k)
      (λ status.
        Ends-bind (filter_pods pods filters) _ (filter_pods-Ends pods filters k)
          (λ rest. Ends-pure _))

module _ (env : Env) (d : Helper) where
  daemon_set_of-Ends : (c : Option OwnerRef) (pod : Pod) → Ends (daemon_set_of env d c pod)
  unfolding daemon_set_of
  daemon_set_of-Ends none pod = Ends-pure _
  daemon_set_of-Ends (some ref) pod =
      Ends-if (not (ref.kind == daemon_set)) (pure _) _ (Ends-pure _)
        (Ends-if (is_finished pod) (pure _) _ (Ends-pure _) (record { at = λ h. tt }))

  base_filters-Ends : All FilterEnds (base_filters env d)
  unfolding base_filters
  base_filters-Ends = (
    (λ pod. record { at = λ h. tt }),
    (
      (λ pod. daemon_set_of-Ends pod.controller pod),
      ((λ pod. Ends-pure _), ((λ pod. Ends-pure _), ((λ pod. Ends-pure _), tt))),
    ),
  )

  pub make_filters-Ends : All FilterEnds d.additional_filters → All FilterEnds (make_filters env d)
  unfolding make_filters
  make_filters-Ends more =
      All-append FilterEnds (base_filters env d) d.additional_filters base_filters-Ends more
