-- ===== src/Aws/Sample.antt =====
-- A service that grants everything, and a cache with one group of two instances, for the tests.
use capten_autoscaler.Base.{
  ℕ, nat_eq, nat_eq_iff, pos, Text, text, text_Eq, text_eq_iff, Bool, true, false, Option, none,
  some, [], ◌∷◌, Dict, lookup, select, All, ◌≡◌, ap, arith, inl, inr, Bool-cases, if◌then◌else◌,
  ◌==◌,
}
use capten_autoscaler.Cluster.Objects.{Node}
use capten_autoscaler.Cluster.Api.{ok}
use capten_autoscaler.Aws.Types.{InstanceRef, ref_Eq, Asg, Instance, Group}
use capten_autoscaler.Aws.State.{Service, State, set_cell}
use capten_autoscaler.Aws.Groups.WellFormed.{IsWellFormed}
use capten_autoscaler.Aws.NodeGroup.{NodeGroup}
use capten_autoscaler.Aws.Refresh.Emptied.{Ranges}

abbrev pub workers_name : Text
workers_name = text "workers"

abbrev is_entry : ℕ → Option ℕ → Bool
is_entry p none = false
is_entry p (some q) = nat_eq q p

-- The entries that a look-up finds.
abbrev found_in : Dict Text ℕ → Text × ℕ → Bool
found_in d e = is_entry e.1 (lookup e.0 d)

abbrev pub service : Service
service = record {
  on_set_desired_capacity = λ log name size. none;
  on_terminate_instance = λ log id. ok (some (text "Terminating EC2 instance"));
  on_describe_scaling_activities = λ log name. ok [];
  on_read_clock = λ log. pos 90000000000;
  spec_from_string = λ t.
      ok (record { name = t; min_size = pos 1; max_size = pos 5; support_scale_to_zero = true });
  validate = λ spec. none;
  expired = λ log name. false;
  range_names = λ names. names;
  range_groups = λ d. select (found_in d) d;
}

is_entry-some : (p : ℕ) (o : Option ℕ) → is_entry p o ≡ true → o ≡ some p
is_entry-some p none e = cc
is_entry-some p (some q) e = ap some ((nat_eq_iff q p).0 e)

select-found :
    (d entries : Dict Text ℕ) → All (λ e. lookup e.0 d ≡ some e.1) (select (found_in d) entries)
select-found d [] = tt
select-found d (e ∷ entries) = elim (Bool-cases (found_in d e)) [
  | inl yes_it ↦ rw yes_it (is_entry-some e.1 (lookup e.0 d) yes_it, select-found d entries)
  | inr not_it ↦ rw not_it (select-found d entries)
]

pub service-Ranges : Ranges service
service-Ranges d = select-found d d

abbrev pub workers : Asg
workers = record {
  name = workers_name;
  min_size = pos 1;
  max_size = pos 5;
  cur_size = pos 3;
  last_update_time = pos 0;
  availability_zones = text "us-east-1a" ∷ [];
  launch_configuration_name = [];
  launch_template = none;
  mixed_instances_policy = none;
  tags = [];
}

abbrev pub instance_a : Instance
instance_a = record {
  availability_zone = some (text "us-east-1a");
  instance_id = some (text "i-0a");
  health_status = some (text "Healthy");
  lifecycle_state = some (text "InService");
}

abbrev pub ref_a : InstanceRef
ref_a = record { provider_id = text "aws:///us-east-1a/i-0a"; name = text "i-0a" }

abbrev pub ref_b : InstanceRef
ref_b = record { provider_id = text "aws:///us-east-1a/i-0b"; name = text "i-0b" }

-- What the service says of the group: it wants three instances and has one.
abbrev pub workers_group : Group
workers_group = record {
  auto_scaling_group_name = some workers_name;
  min_size = some (pos 1);
  max_size = some (pos 5);
  desired_capacity = some (pos 3);
  instances = instance_a ∷ [];
  availability_zones = some (text "us-east-1a") ∷ [];
  launch_configuration_name = none;
  mixed_instances_policy = none;
  tags = [];
}

abbrev pub cache : State
cache = record {
  next = 1;
  cell = set_cell (λ p. none) 0 workers;
  registered_asgs = (workers_name, 0) ∷ [];
  asg_to_instances = (workers_name, ref_a ∷ ref_b ∷ []) ∷ [];
  instance_to_asg = (ref_a, 0) ∷ (ref_b, 0) ∷ [];
  instance_status = (ref_a, some (text "Healthy")) ∷ (ref_b, some (text "Healthy")) ∷ [];
  instance_lifecycle = (ref_a, some (text "InService")) ∷ (ref_b, some (text "InService")) ∷ [];
  explicitly_configured = (workers_name, true) ∷ [];
  autoscaling_options = [];
  asg_instance_type_cache = [];
  last_refresh = pos 0;
  log = [];
}

abbrev pub workers_node_group : NodeGroup
workers_node_group = record { asg = 0 }

abbrev pub node_a : Node
node_a = record {
  name = text "ip-10-0-0-7";
  provider_id = text "aws:///us-east-1a/i-0a";
  creation_timestamp = pos 5;
  labels = [];
  annotations = [];
  unschedulable = false;
  conditions = [];
  taints = [];
}

one_entry : (b : Bool) (p : ℕ) → (if b then some 0 else none) ≡ some p → (b ≡ true) × (0 ≡ p)
one_entry b p at = ground arith

two_entries :
    (b c : Bool) (p : ℕ) → (if b then some 0 else if c then some 0 else none) ≡ some p → 0 ≡ p
two_entries b c p at = ground arith

at_workers : (p : ℕ) → 0 ≡ p → cache.cell p ≡ some workers
at_workers p e = ground arith

pub cache-IsWellFormed : IsWellFormed cache
unfolding lookup
cache-IsWellFormed = record {
  registered = λ k p at.
      let (hit, e) = one_entry (workers_name == k) p at in
      (workers, at_workers p e, (text_eq_iff workers_name k).0 hit);
  known = λ i p at. (workers, at_workers p (two_entries (ref_a == i) (ref_b == i) p at));
  free = λ p le. ground arith;
}
