-- ===== src/Aws/Groups/Kept.antt =====
-- A deletion of instances keeps the invariant of the cache, and so does reading the explicit groups.
use capten_autoscaler.Base.{ℕ, Option, none, some, List, [], ◌∷◌, Text, lookup, text_Eq}
use capten_autoscaler.Cluster.Api.{
  Error, Result, ok, err, Outcome, done, panicked, exited, unfinished,
}
use capten_autoscaler.Aws.Types.{InstanceRef, ref_Eq, NodeGroupSpec}
use capten_autoscaler.Aws.State.{Service, State, Act, continue}
use capten_autoscaler.Aws.State.Rules.{AnyRequest, Does, Does-pure, Does-bind, Does-gets}
use capten_autoscaler.Aws.Groups.{
  Common, same, differs, check_common, delete_each, delete_common, delete_from, delete_instances,
  set_explicit, build_asg, register, after_parse, parse_explicit_asgs,
}
use capten_autoscaler.Aws.Groups.Stable.{refuse-Does}
use capten_autoscaler.Aws.Groups.WellFormed.{IsWellFormed, IsWellFormed-IsStable}
use capten_autoscaler.Aws.Groups.Rounds.{delete_one-Does}
use capten_autoscaler.Aws.Groups.Register.{register-IsWellFormed}

module _ (svc : Service) where
  delete_each-IsWellFormed :
      (p : ℕ) (instances : List InstanceRef)
      → Does IsWellFormed AnyRequest (delete_each svc p instances)
  unfolding delete_each
  delete_each-IsWellFormed p [] = Does-pure IsWellFormed AnyRequest none
  delete_each-IsWellFormed p (i ∷ instances) =
      delete_one-Does svc IsWellFormed IsWellFormed-IsStable AnyRequest p i
        (delete_each svc p instances) (λ e s w a at size. tt) (λ e s w l at going. tt)
        (delete_each-IsWellFormed p instances)

  delete_common-IsWellFormed :
      (p : ℕ) (instances : List InstanceRef) (c : Common)
      → Does IsWellFormed AnyRequest (delete_common svc p instances c)
  delete_common-IsWellFormed p instances same = delete_each-IsWellFormed p instances
  delete_common-IsWellFormed p instances (differs q) =
      refuse-Does IsWellFormed IsWellFormed-IsStable AnyRequest svc p q instances

  delete_from-IsWellFormed :
      (i : InstanceRef) (instances : List InstanceRef) (o : Option ℕ)
      → Does IsWellFormed AnyRequest (delete_from svc i instances o)
  delete_from-IsWellFormed i instances none = Does-pure IsWellFormed AnyRequest _
  delete_from-IsWellFormed i instances (some p) =
      Does-bind IsWellFormed AnyRequest _ (delete_common svc p instances)
        (Does-gets IsWellFormed AnyRequest (λ s. check_common s.instance_to_asg p instances))
        (delete_common-IsWellFormed p instances)

  pub delete_instances-Does :
      (instances : List InstanceRef) → Does IsWellFormed AnyRequest (delete_instances svc instances)
  unfolding delete_instances
  delete_instances-Does [] = Does-pure IsWellFormed AnyRequest none
  delete_instances-Does (i ∷ instances) =
      Does-bind IsWellFormed AnyRequest _ (delete_from svc i (i ∷ instances))
        (Does-gets IsWellFormed AnyRequest (λ s. lookup i s.instance_to_asg))
        (delete_from-IsWellFormed i (i ∷ instances))

  after_parse-IsWellFormed :
      (r : Result NodeGroupSpec) (rest : Act (Option Error)) (s : State)
      → ((t : State) → IsWellFormed t → IsWellFormed (rest t).1)
      → IsWellFormed s
      → IsWellFormed (after_parse svc r rest s).1
  after_parse-IsWellFormed (err e) rest s k w = w
  after_parse-IsWellFormed (ok spec) rest s k w =
      by_pointer (register (build_asg spec) t).0 (register (build_asg spec) t).1 (
        register-IsWellFormed (build_asg spec) t
          (record { registered = w.registered; known = w.known; free = w.free }))
    where
      t : State
      t = (set_explicit spec.name s).1

      by_pointer :
          (o : Outcome ℕ) (u : State) → IsWellFormed u → IsWellFormed (continue o (λ p. rest) u).1
      by_pointer (done p) u v = k u v
      by_pointer panicked u v = v
      by_pointer exited u v = v
      by_pointer unfinished u v = v

  pub parse_explicit_asgs-IsWellFormed :
      (specs : List Text) (s : State)
      → IsWellFormed s
      → IsWellFormed (parse_explicit_asgs svc specs s).1
  unfolding parse_explicit_asgs
  parse_explicit_asgs-IsWellFormed [] s w = w
  parse_explicit_asgs-IsWellFormed (spec ∷ specs) s w =
      after_parse-IsWellFormed (svc.spec_from_string spec) (parse_explicit_asgs svc specs) s
        (parse_explicit_asgs-IsWellFormed specs) w
