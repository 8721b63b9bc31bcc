-- ===== src/Autoscaler/Passes.antt =====
-- One pass of `reconcile`, on every way through it.
use capten_autoscaler.Base.{
  ◌∙◌, ℤ, pos, length, Bool, false, Option, none, some, List, [], ◌∷◌, ◌≡◌, refl, ◌⊎◌, int_eq, inl,
  inr,
}
use capten_autoscaler.Cluster.Objects.{Pod, Node}
use capten_autoscaler.Cluster.Api.{
  Result, ok, err, Call, list_nodes, scale_up, continue, History, Env, Outcome, done, panicked,
  exited, unfinished, pure, ◌>>=◌,
}
use capten_autoscaler.Cluster.Laws.{
  count, Avoids, Avoids-pure, Avoids-bind, Avoids-if, Avoids-panic, Avoids-ask_out,
}
use capten_autoscaler.Drain.Wait.{Poller, IsPollImmediate}
use capten_autoscaler.Listers.{all_pods, all_nodes, unschedulable_pods}
use capten_autoscaler.Listers.Calls.{all_pods-Avoids, all_nodes-Avoids}
use capten_autoscaler.Autoscaler.{
  Float64, NodeInfo, grown, grow, shrink, decide, with_nodes, with_pods, get_worker_nodes, retire,
  reconcile,
}
use capten_autoscaler.Autoscaler.Retire.{is_scale_down}
use capten_autoscaler.Autoscaler.Absent.{is_scale_up, scale_up-IsAbsent, retire-Avoids}

module _ (env : Env) (poll : ℤ → Poller) (polls : (timeout : ℤ) → IsPollImmediate (poll timeout))
    (float : Float64) (info : NodeInfo float) where
  -- At most one of the two kinds of calls is made.
  abbrev pub IsOneWay : History → History → Type 0
  IsOneWay h h' =
      (count is_scale_up h' ≡ count is_scale_up h)
      ⊎ (count is_scale_down h' ≡ count is_scale_down h)

  grow-Avoids : (n : Option ℤ) → Avoids is_scale_down (grow env poll float info n)
  grow-Avoids none = Avoids-panic is_scale_down
  grow-Avoids (some n) =
      Avoids-bind is_scale_down _ (λ e. pure (grown env poll float info e))
        (Avoids-ask_out is_scale_down (scale_up n) (λ h. env.on_scale_up h n) refl)
        (λ e. Avoids-pure is_scale_down (grown env poll float info e))

  shrink-Avoids :
      (nodes : List Node) (n : Option ℤ) → Avoids is_scale_up (shrink env poll float info nodes n)
  shrink-Avoids nodes none = Avoids-panic is_scale_up
  shrink-Avoids nodes (some n) =
      Avoids-if is_scale_up (int_eq (pos (length nodes)) n) (pure none) (retire env poll n nodes)
        (Avoids-pure is_scale_up none)
        (retire-Avoids env poll polls is_scale_up scale_up-IsAbsent n nodes)

  decide-IsOneWay :
      (pods : List Pod) (nodes : List Node) (stuck : List Pod) (h : History)
      → IsOneWay h (decide env poll float info pods nodes stuck h).1
  decide-IsOneWay pods nodes [] h = inl ((shrink-Avoids nodes _).at h)
  decide-IsOneWay pods nodes (p ∷ ps) h = inr ((grow-Avoids _).at h)

  OneWay-after :
      (h h1 h2 : History)
      → count is_scale_up h1 ≡ count is_scale_up h
      → count is_scale_down h1 ≡ count is_scale_down h
      → IsOneWay h1 h2
      → IsOneWay h h2
  OneWay-after h h1 h2 up down (inl e) = inl (e ∙ up)
  OneWay-after h h1 h2 up down (inr e) = inr (e ∙ down)

  get_worker_nodes-Avoids :
      (p : Call → Bool) → p list_nodes ≡ false → Avoids p (get_worker_nodes env poll)
  unfolding get_worker_nodes
  get_worker_nodes-Avoids p quiet =
      Avoids-bind p (all_nodes env) _ (all_nodes-Avoids p env quiet)
        (λ r. record { at = λ h. refl })

  with_nodes-IsOneWay :
      (pods : List Pod) (o : Outcome (Result (List Node))) (h h1 : History)
      → count is_scale_up h1 ≡ count is_scale_up h
      → count is_scale_down h1 ≡ count is_scale_down h
      → IsOneWay h (continue o (with_nodes env poll float info pods) h1).1
  with_nodes-IsOneWay pods (done (ok nodes)) h h1 up down =
      OneWay-after h h1 (decide env poll float info pods nodes (unschedulable_pods pods) h1).1 up
        down (decide-IsOneWay pods nodes (unschedulable_pods pods) h1)
  with_nodes-IsOneWay pods (done (err e)) h h1 up down = inl up
  with_nodes-IsOneWay pods panicked h h1 up down = inl up
  with_nodes-IsOneWay pods exited h h1 up down = inl up
  with_nodes-IsOneWay pods unfinished h h1 up down = inl up

  with_pods-IsOneWay :
      (o : Outcome (Result (List Pod))) (h h1 : History)
      → count is_scale_up h1 ≡ count is_scale_up h
      → count is_scale_down h1 ≡ count is_scale_down h
      → IsOneWay h (continue o (with_pods env poll float info) h1).1
  with_pods-IsOneWay (done (ok pods)) h h1 up down =
      OneWay-after h h1 ((get_worker_nodes env poll >>= with_nodes env poll float info pods) h1).1
        up down
        (with_nodes-IsOneWay pods (get_worker_nodes env poll h1).0 h1
          (get_worker_nodes env poll h1).1 ((get_worker_nodes-Avoids is_scale_up refl).at h1)
          ((get_worker_nodes-Avoids is_scale_down refl).at h1))
  with_pods-IsOneWay (done (err e)) h h1 up down = inl up
  with_pods-IsOneWay panicked h h1 up down = inl up
  with_pods-IsOneWay exited h h1 up down = inl up
  with_pods-IsOneWay unfinished h h1 up down = inl up

  -- A pass never asks the cloud both for more machines and to take machines away, whatever the
  -- cluster and the cloud answer and however the pass ends.
  pub reconcile-IsOneWay : (h : History) → IsOneWay h (reconcile env poll float info h).1
  unfolding reconcile
  reconcile-IsOneWay h =
      with_pods-IsOneWay (all_pods env h).0 h (all_pods env h).1
        ((all_pods-Avoids is_scale_up env refl).at h)
        ((all_pods-Avoids is_scale_down env refl).at h)
