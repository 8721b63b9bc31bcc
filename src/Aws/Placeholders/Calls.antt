-- ===== src/Aws/Placeholders/Calls.antt =====
-- Placeholders are made without a change of the state but for the requests, which look for activities.
use capten_autoscaler.Base.{
  ℕ, ℤ, pos, pos_part, ◌-ℤ◌, leb_ℤ, ltb_ℤ, Text, Bool, true, false, Option, none, some, List, [],
  ◌∷◌, length, lookup, text_Eq,
}
use capten_autoscaler.Cluster.Api.{Error, Result, ok, err}
use capten_autoscaler.Aws.Types.{Instant, Group, Activity}
use capten_autoscaler.Aws.State.{
  Request, describe_scaling_activities, Service, State, Act, pure, gets, lift, from_option, load,
}
use capten_autoscaler.Aws.State.Rules.{
  Does, Does-pure, Does-lift, Does-gets, Does-from_option, Does-if, Does-bind,
}
use capten_autoscaler.Aws.Groups.Stable.{IsStable, Does-load, Does-request}
use capten_autoscaler.Aws.Placeholders.{
  fill, has_failed, judge_activity, judge_group, scan_activities, after_describe,
  is_node_group_available, health_of, fill_group, fill_to_desired, create_placeholders,
}

module _ (svc : Service) (I : State → Type 0) (stable : IsStable I) (P : Request → Type 0)
    (allowed : (name : Option Text) → P (describe_scaling_activities name)) where
  judge_activity-Does :
      (updated : Instant) (a : Activity) (rest : Act (Bool × Option Error))
      → Does I P rest
      → Does I P (judge_activity svc updated a rest)
  judge_activity-Does updated a rest k =
      Does-bind I P (from_option a.start_time) _ (Does-from_option I P a.start_time) (λ started.
        Does-if I P (ltb_ℤ started updated) (pure (true, none)) _ (Does-pure I P _) (
          Does-bind I P (lift (has_failed svc a.status_code)) _ (Does-lift I P _)
            (λ failed. Does-if I P failed (pure (false, none)) rest (Does-pure I P _) k)))

  judge_group-Does :
      (a : Activity) (o : Option ℕ) (rest : Act (Bool × Option Error))
      → Does I P rest
      → Does I P (judge_group svc a o rest)
  judge_group-Does a none rest k = k
  judge_group-Does a (some p) rest k =
      Does-bind I P (load p) _ (Does-load I stable P p)
        (λ g. judge_activity-Does g.last_update_time a rest k)

  scan_activities-Does :
      (name : Text) (activities : List Activity) → Does I P (scan_activities svc name activities)
  unfolding scan_activities
  scan_activities-Does name [] = Does-pure I P _
  scan_activities-Does name (a ∷ activities) =
      Does-bind I P (gets (λ s. lookup name s.registered_asgs)) _ (Does-gets I P _) (λ o.
        judge_group-Does a o (scan_activities svc name activities)
          (scan_activities-Does name activities))

  after_describe-Does :
      (name : Option Text) (r : Result (List Activity)) → Does I P (after_describe svc name r)
  after_describe-Does name (err e) = Does-pure I P _
  after_describe-Does name (ok []) = Does-pure I P _
  after_describe-Does name (ok (a ∷ activities)) =
      Does-bind I P (from_option name) _ (Does-from_option I P name)
        (λ n. scan_activities-Does n (a ∷ activities))

  is_node_group_available-Does : (g : Group) → Does I P (is_node_group_available svc g)
  unfolding is_node_group_available
  is_node_group_available-Does g =
      Does-bind I P _ (after_describe svc g.auto_scaling_group_name)
        (Does-request I stable P (describe_scaling_activities g.auto_scaling_group_name)
          (λ log. svc.on_describe_scaling_activities log g.auto_scaling_group_name)
          (allowed g.auto_scaling_group_name))
        (after_describe-Does g.auto_scaling_group_name)

  fill_group-Does :
      (g : Group) (desired : ℤ) (name : Text) → Does I P (fill_group svc g desired name)
  fill_group-Does g desired name =
      Does-bind I P (is_node_group_available svc g) _ (is_node_group_available-Does g) (λ answer.
        Does-bind I P
          (lift (
            fill (pos_part (desired -ℤ pos (length g.instances))) (length g.instances) name
              g.availability_zones (health_of svc answer) g.instances))
          (λ instances. pure (record g { instances = instances })) (Does-lift I P _)
          (λ instances. Does-pure I P _))

  fill_to_desired-Does : (g : Group) → Does I P (fill_to_desired svc g)
  unfolding fill_to_desired
  fill_to_desired-Does g =
      Does-bind I P (from_option g.desired_capacity) _ (Does-from_option I P g.desired_capacity)
        (λ desired.
          Does-if I P (leb_ℤ desired (pos (length g.instances))) (pure g) _ (Does-pure I P g) (
            Does-bind I P (from_option g.auto_scaling_group_name) _
              (Does-from_option I P g.auto_scaling_group_name) (fill_group-Does g desired)))

  pub create_placeholders-Does : (groups : List Group) → Does I P (create_placeholders svc groups)
  unfolding create_placeholders
  create_placeholders-Does [] = Does-pure I P []
  create_placeholders-Does (g ∷ groups) =
      Does-bind I P (fill_to_desired svc g) _ (fill_to_desired-Does g) (λ filled.
        Does-bind I P (create_placeholders svc groups) (λ rest. pure (filled ∷ rest))
          (create_placeholders-Does groups) (λ rest. Does-pure I P (filled ∷ rest)))
