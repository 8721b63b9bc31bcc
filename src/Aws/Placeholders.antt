-- ===== src/Aws/Placeholders.antt =====
-- pkg/cloudprovider/aws/autoscaling_group.go: instances that stand for those that a group asked for
-- and does not have.
pub mod Calls
pub mod Filled
mod Tests
use capten_autoscaler.Base.{
  ℕ, zero, suc, ◌+◌, ℤ, pos, pos_part, ◌-ℤ◌, leb_ℤ, ltb_ℤ, Text, text, decimal, Bool, true, false,
  not, Option, none, some, List, [], ◌∷◌, ◌++◌, length, lookup, ◌==◌, text_Eq, if◌then◌else◌,
}
use capten_autoscaler.Cluster.Api.{Error, Result, ok, err, Outcome, done, panicked}
use capten_autoscaler.Aws.Types.{Asg, Instance, Group, Activity, Instant}
use capten_autoscaler.Aws.State.{
  describe_scaling_activities, Service, State, Act, pure, panic, gets, send, ◌>>=◌, lift,
  from_option, load,
}
use capten_autoscaler.Aws.Groups.{placeholder_instance_name_prefix}

abbrev pub placeholder_unfulfillable_status : Text
placeholder_unfulfillable_status = text "placeholder-cannot-be-fulfilled"

-- `fmt.Sprintf("%s-%s-%d", placeholderInstanceNamePrefix, name, i)`
unfoldable pub placeholder_id : Text → ℕ → Text
placeholder_id name i = placeholder_instance_name_prefix ++ (b'-' ∷ (name ++ (b'-' ∷ decimal i)))

abbrev pub placeholder : Text → Option Text → Text → ℕ → Instance
placeholder name zone health i = record {
  availability_zone = zone;
  instance_id = some (placeholder_id name i);
  health_status = some health;
  lifecycle_state = none;
}

abbrev pub with_zone :
    List (Option Text) → (Option Text → Outcome (List Instance)) → Outcome (List Instance)
with_zone [] k = panicked
with_zone (zone ∷ zones) k = k zone

-- The loop from `i` on, for a number of rounds: `g.AvailabilityZones[0]` panics where there is none.
unfoldable pub fill :
    ℕ → ℕ → Text → List (Option Text) → Text → List Instance → Outcome (List Instance)
fill zero i name zones health instances = done instances
fill (suc n) i name zones health instances =
    with_zone zones
      (λ zone. fill n (suc i) name zones health (instances ++ placeholder name zone health i ∷ []))

module _ (svc : Service) where
  -- `*activity.StatusCode == "Failed"`
  abbrev pub has_failed : Option Text → Outcome Bool
  has_failed none = panicked
  has_failed (some code) = done (code == text "Failed")

  -- One activity: `break`, an answer, or the next one.
  abbrev pub judge_activity :
      Instant → Activity → Act (Bool × Option Error) → Act (Bool × Option Error)
  judge_activity updated activity rest = from_option activity.start_time >>= λ started.
      if ltb_ℤ started updated
      then pure (true, none)
      else (lift (has_failed activity.status_code) >>= λ failed.
          if failed then pure (false, none) else rest)

  abbrev pub judge_group :
      Activity → Option ℕ → Act (Bool × Option Error) → Act (Bool × Option Error)
  judge_group activity none rest = rest
  judge_group activity (some p) rest =
      load p >>= λ a. judge_activity a.last_update_time activity rest

  unfoldable pub scan_activities : Text → List Activity → Act (Bool × Option Error)
  scan_activities name [] = pure (true, none)
  scan_activities name (activity ∷ activities) = gets (λ s. lookup name s.registered_asgs) >>= λ o.
      judge_group activity o (scan_activities name activities)

  abbrev pub after_describe : Option Text → Result (List Activity) → Act (Bool × Option Error)
  after_describe name (err e) = pure (true, some e)
  after_describe name (ok []) = pure (true, none)
  after_describe name (ok (a ∷ activities)) =
      from_option name >>= λ n. scan_activities n (a ∷ activities)

  -- `isNodeGroupAvailable`
  unfoldable pub is_node_group_available : Group → Act (Bool × Option Error)
  unfolding scan_activities
  is_node_group_available g =
      send (describe_scaling_activities g.auto_scaling_group_name)
        (λ log. svc.on_describe_scaling_activities log g.auto_scaling_group_name)
      >>= after_describe g.auto_scaling_group_name

  -- An error of the check counts as available.
  abbrev pub health_of : Bool × Option Error → Text
  health_of (available, some e) = []
  health_of (available, none) = if not available then placeholder_unfulfillable_status else []

  abbrev pub fill_group : Group → ℤ → Text → Act Group
  fill_group g desired name = do
    answer ← is_node_group_available g
    instances ← lift (
        fill (pos_part (desired -ℤ pos (length g.instances))) (length g.instances) name
          g.availability_zones (health_of answer) g.instances)
    pure (record g { instances = instances })

  -- The log line before the check reads the name of the group.
  abbrev pub fill_named : Group → ℤ → Act Group
  fill_named g desired =
      if leb_ℤ desired (pos (length g.instances))
      then pure g
      else from_option g.auto_scaling_group_name >>= fill_group g desired

  unfoldable pub fill_to_desired : Group → Act Group
  unfolding fill is_node_group_available
  fill_to_desired g = from_option g.desired_capacity >>= fill_named g

  -- `createPlaceholdersForDesiredNonStartedInstances`
  unfoldable pub create_placeholders : List Group → Act (List Group)
  unfolding fill_to_desired
  create_placeholders [] = pure []
  create_placeholders (g ∷ groups) = do
    filled ← fill_to_desired g
    rest ← create_placeholders groups
    pure (filled ∷ rest)
