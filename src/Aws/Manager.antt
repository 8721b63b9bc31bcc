-- ===== src/Aws/Manager.antt =====
-- pkg/cloudprovider/aws/manager.go: refreshing the cache, deletions, and templates of nodes.
pub mod Refreshing
mod Tests
use capten_autoscaler.Base.{
  ℕ, ℤ, pos, ◌+ℤ◌, ◌-ℤ◌, ltb_ℤ, Text, text, Bool, true, false, Option, none, some, List, [], ◌∷◌,
  ◌++◌, Dict, lookup, text_Eq, if◌then◌else◌,
}
use capten_autoscaler.Cluster.Api.{Error, failure, Result, ok, err, Outcome, done, panicked}
use capten_autoscaler.Aws.Types.{InstanceRef, Instant, Asg}
use capten_autoscaler.Aws.State.{
  read_clock, Service, State, Act, pure, gets, send, ◌>>=◌, ◌>>◌, lift,
}
use capten_autoscaler.Aws.Groups.{delete_instances}
use capten_autoscaler.Aws.Refresh.{regenerate, get_instance_type_for_asg}

abbrev pub refresh_interval : ℤ
refresh_interval = pos 60000000000

-- `InstanceType` of ec2_instance_types.go, the spec of an EC2 instance.
pub record InstanceType : Type 0 where
  pub instance_type : Text
  pub vcpu : ℤ
  pub memory_mb : ℤ
  pub gpu : ℤ
  pub architecture : Text

pub record AsgTemplate : Type 0 where
  pub instance_type : InstanceType
  pub region : Text
  pub zone : Text

-- `az[0 : len(az)-1]`
unfoldable pub without_last : Text → Outcome Text
without_last [] = panicked
without_last (c ∷ []) = done []
without_last (c ∷ d ∷ s) = elim (without_last (d ∷ s)) [ done r ↦ done (c ∷ r) | _ ↦ panicked ]

-- `%q` of a name that needs no escapes.
abbrev pub quoted : Text → Text
quoted t = b'"' ∷ (t ++ (b'"' ∷ []))

module _ (svc : Service) where
  abbrev pub time_now : Act Instant
  time_now = send read_clock svc.on_read_clock

  abbrev pub set_last_refresh : Instant → Act (Unit {0})
  set_last_refresh t s = (done tt, record s { last_refresh = t })

  abbrev pub after_regenerate : Option Error → Act (Option Error)
  after_regenerate (some e) = pure (some e)
  after_regenerate none = time_now >>= λ now. set_last_refresh now >> pure none

  unfoldable pub force_refresh : Act (Option Error)
  unfolding regenerate
  force_refresh = regenerate svc >>= after_regenerate

  abbrev pub refresh_at : Instant → Instant → Act (Option Error)
  refresh_at last now = if ltb_ℤ now (last +ℤ refresh_interval) then pure none else force_refresh

  -- `Refresh`
  unfoldable pub refresh : Act (Option Error)
  unfolding force_refresh
  refresh = gets (λ s. s.last_refresh) >>= λ last. time_now >>= refresh_at last

  abbrev pub after_deletion : Option Error → Act (Option Error)
  after_deletion (some e) = pure (some e)
  after_deletion none = time_now >>= λ now. set_last_refresh (now -ℤ refresh_interval) >> pure none

  -- `DeleteInstances` of the manager
  unfoldable pub manager_delete_instances : List InstanceRef → Act (Option Error)
  manager_delete_instances instances = delete_instances svc instances >>= after_deletion

  abbrev pub template_or_error : Asg → Text → Text → Text → Option InstanceType → Result AsgTemplate
  template_or_error asg region zone name none = err (
      failure (
        text "ASG "
        ++ (quoted asg.name ++ (text " uses the unknown EC2 instance type " ++ quoted name))))
  template_or_error asg region zone name (some t) =
      ok (record { instance_type = t; region = region; zone = zone })

  abbrev pub typed_template :
      Dict Text InstanceType → Asg → Text → Text → Result Text → Result AsgTemplate
  typed_template types asg region zone (err e) = err e
  typed_template types asg region zone (ok name) =
      template_or_error asg region zone name (lookup name types)

  abbrev pub zoned_template : Dict Text InstanceType → Asg → List Text → Act (Result AsgTemplate)
  zoned_template types asg [] =
      pure (err (failure (text "unable to get first AvailabilityZone for ASG " ++ quoted asg.name)))
  zoned_template types asg (zone ∷ zones) = do
    region ← lift (without_last zone)
    name ← get_instance_type_for_asg svc asg
    pure (typed_template types asg region zone name)

  -- `getAsgTemplate`, with `m.instanceTypes`
  unfoldable pub get_asg_template : Dict Text InstanceType → Asg → Act (Result AsgTemplate)
  unfolding without_last
  get_asg_template types asg = zoned_template types asg asg.availability_zones
