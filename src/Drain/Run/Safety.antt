-- ===== src/Drain/Run/Safety.antt =====
-- `RunNodeDrain`: it removes no pod of a node that has a pod which it refuses, and when it returns no
-- error every pod that it was to remove is gone.
use capten_autoscaler.Base.{
  ap, ℕ, ℤ, Text, Bool, true, false, List, [], ◌∷◌, ◌≡◌, ◌≢◌, refl, All, text_Eq, arith, any,
}
use capten_autoscaler.Cluster.Objects.{Pod}
use capten_autoscaler.Cluster.Api.{
  panicked, exited, unfinished, continue, Error, Result, ok, err, Call, evict_v1, evict_v1beta1,
  delete_pod, get_daemon_set, list_node_pods, History, Env, Outcome, done, pure, ask,
}
use capten_autoscaler.Cluster.Laws.{bind-eq-done, IsFaithful, count}
use capten_autoscaler.Drain.Filter.{
  Helper, PodDelete, type_error, make_filters, filter_pods, errors,
}
use capten_autoscaler.Drain.Wait.{Poller}
use capten_autoscaler.Drain.Filter.Report.{has_reason, errors-nil}
use capten_autoscaler.Drain.Filter.Calls.{FilterKeeps, filter_pods-Keeps, make_filters-Keeps}
use capten_autoscaler.Cluster.Keeps.{
  Keeps, Keeps-pure, Keeps-ask, Keeps-bind, Counted, Counted-Admits,
}
use capten_autoscaler.Drain.Run.{
  Selection, listed, refused, select_by, filter_listed, list_and_filter, get_pods_for_deletion,
  drain_selected, run_node_drain,
}

abbrev items_of : Selection → List PodDelete
items_of (listed items) = items
items_of (refused errs) = []

-- A call that takes a pod away from the node.
abbrev pub is_removal : Call → Bool
is_removal (evict_v1 ns n g) = true
is_removal (evict_v1beta1 ns n g) = true
is_removal (delete_pod ns n g) = true
is_removal _ = false

module _ (env : Env) (poll : ℤ → Poller) (d : Helper) (faithful : IsFaithful env)
    (more : (n : ℕ) → All (FilterKeeps (Counted is_removal n)) d.additional_filters) where
  module _ (n : ℕ) where
    abbrev Quiet : History → Type 0
    Quiet = Counted is_removal n

    filter_listed-Keeps : (r : Result (List Pod)) → Keeps Quiet (filter_listed env poll d r)
    filter_listed-Keeps (err e) = Keeps-pure Quiet _
    filter_listed-Keeps (ok pods) =
        Keeps-bind Quiet (filter_pods pods (make_filters env d))
          (λ items. pure (select_by items (errors env items)))
          (filter_pods-Keeps Quiet pods (make_filters env d) (
            make_filters-Keeps Quiet env d
              (λ ns name. Counted-Admits is_removal n (get_daemon_set ns name) refl) (more n)))
          (λ items. Keeps-pure Quiet _)

    list_and_filter-Keeps :
        (node_name : Text) (r : Result Text) → Keeps Quiet (list_and_filter env poll d node_name r)
    list_and_filter-Keeps node_name (err e) = Keeps-pure Quiet _
    list_and_filter-Keeps node_name (ok selector) =
        Keeps-bind Quiet
          (ask (list_node_pods selector node_name)
            (λ h. env.on_list_node_pods h selector node_name))
          (filter_listed env poll d)
          (Keeps-ask Quiet _ _
            (Counted-Admits is_removal n (list_node_pods selector node_name) refl))
          filter_listed-Keeps

  -- What is known of a list that is drained: the filters marked no pod of it as an error.
  abbrev pub IsAccepted : Text → History → Type 0
  IsAccepted node_name h =
      (items : List PodDelete) × (h1 : History) × (get_pods_for_deletion env poll d node_name h
        ≡ (done (listed items), h1))
      × (any (has_reason type_error) items ≡ false)

  filter_listed-quiet :
      (r : Result (List Pod)) (h : History) (items : List PodDelete) (h' : History)
      → filter_listed env poll d r h ≡ (done (listed items), h')
      → any (has_reason type_error) items ≡ false
  filter_listed-quiet (err e) h items h' eq = cc
  filter_listed-quiet (ok pods) h items h' eq =
      let (found, h1, filtered, last) =
        bind-eq-done (filter_pods pods (make_filters env d))
          (λ items. pure (select_by items (errors env items))) h eq in
      select_by-quiet found (errors env found) refl (ground arith)
    where
      select_by-quiet :
          (found : List PodDelete) (es : List Error)
          → errors env found ≡ es
          → select_by found es ≡ listed items
          → any (has_reason type_error) items ≡ false
      select_by-quiet found [] quiet same =
          rw (ap (λ s. items_of s) same) at ((errors-nil env faithful found).0 quiet)
      select_by-quiet found (e ∷ es) quiet same = cc

  list_and_filter-quiet :
      (node_name : Text) (r : Result Text) (h : History) (items : List PodDelete) (h' : History)
      → list_and_filter env poll d node_name r h ≡ (done (listed items), h')
      → any (has_reason type_error) items ≡ false
  list_and_filter-quiet node_name (err e) h items h' eq = cc
  list_and_filter-quiet node_name (ok selector) h items h' eq =
      filter_listed-quiet (env.on_list_node_pods h selector node_name) _ items h' eq

  removal_inv :
      (node_name : Text) (h h1 : History) (o : Outcome Selection)
      → get_pods_for_deletion env poll d node_name h ≡ (o, h1)
      → count is_removal h1 ≡ count is_removal h
      → count is_removal (continue o (drain_selected env poll d) h1).1 ≢ count is_removal h
      → IsAccepted node_name h
  removal_inv node_name h h1 (done (listed items)) e quiet ne = (
    items,
    h1,
    e,
    list_and_filter-quiet node_name (env.parse_selector d.pod_selector) h items h1
        (unfold get_pods_for_deletion in e),
  )
  removal_inv node_name h h1 (done (refused errs)) e quiet ne = absurd (ne quiet)
  removal_inv node_name h h1 panicked e quiet ne = absurd (ne quiet)
  removal_inv node_name h h1 exited e quiet ne = absurd (ne quiet)
  removal_inv node_name h h1 unfinished e quiet ne = absurd (ne quiet)

  -- A drain that evicts or deletes any pod has listed the pods of the node and found no error for any
  -- of them: a single pod that the filters refuse keeps all pods of its node; if `NewAggregate` does as
  -- documented and no additional filter evicts or deletes a pod itself.
  pub run_node_drain-IsAccepted :
      (node_name : Text) (h : History)
      → count is_removal (run_node_drain env poll d node_name h).1 ≢ count is_removal h
      → IsAccepted node_name h
  unfolding run_node_drain
  run_node_drain-IsAccepted node_name h ne =
      let first = get_pods_for_deletion env poll d node_name h in
      removal_inv node_name h first.1 first.0 refl
        (unfold get_pods_for_deletion in
          (list_and_filter-Keeps (count is_removal h) node_name
              (env.parse_selector d.pod_selector)).at
            h refl)
        ne
