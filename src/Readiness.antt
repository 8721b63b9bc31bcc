-- ===== src/Readiness.antt =====
-- pkg/util/kubernetes/k8sapi/ready.go: whether a node is ready, since when, and why not.
pub mod Verdict
mod Tests
use capten_autoscaler.Base.{
  pos, ltb_ℤ, Text, text, Bool, true, false, not, ◌&&◌, ◌||◌, Option, none, some, List, [], ◌∷◌,
  select, Dict, lookup, ◌==◌, text_Eq, if◌then◌else◌,
}
use capten_autoscaler.Cluster.Objects.{
  Time, NodeCondition, Taint, Node, condition_true, condition_false, condition_unknown,
}
use capten_autoscaler.Cluster.Api.{Error, failure, Result, ok, err}

abbrev pub node_ready : Text
node_ready = text "Ready"

abbrev pub node_disk_pressure : Text
node_disk_pressure = text "DiskPressure"

abbrev pub node_network_unavailable : Text
node_network_unavailable = text "NetworkUnavailable"

abbrev not_ready_taints : Dict Text Bool
not_ready_taints =
    (text "node.kubernetes.io/not-ready", true)
    ∷ (text "node.kubernetes.io/disk-pressure", true)
    ∷ (text "node.kubernetes.io/network-unavailable", true)
    ∷ []

pub record NodeReadiness : Type 0 where
  pub ready : Bool
  pub last_transition_time : Time
  pub reason : Text

-- The variables of `GetNodeReadiness`.
pub record Scan : Type 0 where
  pub can_be_ready : Bool
  pub ready_found : Bool
  pub last : Time
  pub reason : Text

abbrev pub start : Scan
start = record { can_be_ready = true; ready_found = false; last = pos 0; reason = [] }

-- `if lastTransitionTime.Before(t) { lastTransitionTime = t }`
abbrev later : Time → Time → Time
later last t = if ltb_ℤ last t then t else last

abbrev pub is_down : NodeCondition → Bool
is_down c = c.status == condition_false || c.status == condition_unknown

-- The cases of the `switch`, one after the other.
unfoldable pub scan_condition : Scan → NodeCondition → Scan
scan_condition s c =
    if c.type == node_ready
    then record s {
      ready_found = true;
      can_be_ready = if is_down c then false else s.can_be_ready;
      reason = if is_down c then c.reason else s.reason;
      last = later s.last c.last_transition_time;
    }
    else if c.type == node_disk_pressure
    then record s {
      can_be_ready = if c.status == condition_true then false else s.can_be_ready;
      last = later s.last c.last_transition_time;
    }
    else if c.type == node_network_unavailable
    then record s {
      can_be_ready = if c.status == condition_true then false else s.can_be_ready;
      last = later s.last c.last_transition_time;
    }
    else s

scan_conditions : Scan → List NodeCondition → Scan
unfolding scan_condition
scan_conditions s [] = s
scan_conditions s (c ∷ cs) = scan_conditions (scan_condition s c) cs

abbrev in_map : Option Bool → Bool
in_map none = false
in_map (some b) = b

abbrev later_added : Time → Option Time → Time
later_added last none = last
later_added last (some t) = later last t

unfoldable pub is_not_ready_taint : Taint → Bool
is_not_ready_taint taint = in_map (lookup taint.key not_ready_taints)

unfoldable pub scan_taint : Scan → Taint → Scan
scan_taint s taint =
    if is_not_ready_taint taint
    then record s { can_be_ready = false; last = later_added s.last taint.time_added }
    else s

scan_taints : Scan → List Taint → Scan
unfolding scan_taint
scan_taints s [] = s
scan_taints s (t ∷ ts) = scan_taints (scan_taint s t) ts

abbrev conclude : Scan → Result NodeReadiness
conclude s =
    if not s.ready_found
    then err (failure (text "readiness information not found"))
    else ok (record { ready = s.can_be_ready; last_transition_time = s.last; reason = s.reason })

unfoldable pub get_node_readiness : Node → Result NodeReadiness
unfolding scan_conditions scan_taints
get_node_readiness node = conclude (scan_taints (scan_conditions start node.conditions) node.taints)

-- With an error the readiness is the zero value: `GetReadinessState` returns false.
abbrev pub ready_of : Result NodeReadiness → Bool
ready_of (ok r) = r.ready
ready_of (err e) = false

unfoldable pub is_node_ready_and_schedulable : Node → Bool
unfolding get_node_readiness
is_node_ready_and_schedulable node =
    if not (ready_of (get_node_readiness node))
    then false
    else if node.unschedulable
    then false
    else true

unfoldable pub get_unready_node_copy : Node → (reason : Text) → Node
get_unready_node_copy node reason = record node {
  conditions =
      record {
        type = node_ready;
        status = condition_false;
        reason = reason;
        last_transition_time = node.creation_timestamp;
      }
      ∷ select (λ c. not (c.type == node_ready)) node.conditions;
}
