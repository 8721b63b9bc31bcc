-- ===== src/Drain/Filter/Tests.antt =====
-- The filters on the pod of the sample world.
use capten_autoscaler.Base.{List, [], ◌∷◌, ◌≡◌, refl, ◌==◌, text_Eq, lookup}
use capten_autoscaler.Cluster.Api.{Returns}
use capten_autoscaler.Sample.{web_pod, world}
use capten_autoscaler.Drain.Filter.{
  PodDelete, okay, with_error, unmanaged_fatal, type_error, make_filters, run_filters, no_status,
  group_by_message, entries, error_key,
}
use capten_autoscaler.Drain.Filter.Policy.{
  is_deletable, is_refused, run_filters-is_deletable, run_filters-is_refused,
}
use capten_autoscaler.Drain.Filter.Report.{names_of, group_by_message-names_of}
use capten_autoscaler.Autoscaler.{drain_helper}

run_filters-is_deletable_example :
    Returns
      (run_filters (make_filters world drain_helper) no_status web_pod []).0
      (λ s. s.delete ≡ is_deletable world drain_helper [] web_pod)
run_filters-is_deletable_example = run_filters-is_deletable world drain_helper [] web_pod refl

run_filters-is_refused_example :
    Returns
      (run_filters (make_filters world drain_helper) no_status web_pod []).0
      (λ s. (s.reason == type_error) ≡ is_refused world drain_helper [] web_pod)
run_filters-is_refused_example = run_filters-is_refused world drain_helper [] web_pod refl

abbrev two_items : List PodDelete
two_items =
    record { pod = web_pod; status = okay }
    ∷ record { pod = web_pod; status = with_error unmanaged_fatal }
    ∷ []

group_by_message-names_of_example :
    entries (lookup unmanaged_fatal (group_by_message type_error (error_key world) two_items []))
    ≡ names_of type_error (error_key world) unmanaged_fatal two_items
group_by_message-names_of_example =
    group_by_message-names_of type_error (error_key world) unmanaged_fatal two_items
