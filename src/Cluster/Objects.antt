-- ===== src/Cluster/Objects.antt =====
-- The Kubernetes objects of `k8s.io/api/core/v1`, with the fields that the program reads. A field
-- may hold what an accessor of that library returns for the object, as its comment says.
use capten_autoscaler.Base.{Text, ℤ, Bool, ◌||◌, Option, List, Dict, text, ◌==◌, text_Eq}

-- Whole seconds since Go's zero time, which is 0; `metav1.Time` keeps no finer part.
abbrev pub Time : Type 0
Time = ℤ

pub record OwnerRef : Type 0 where
  pub kind : Text
  pub name : Text

pub record Container : Type 0 where
  pub cpu : ℤ  -- `Resources.Requests.Cpu()`, in nanocores
  pub memory : ℤ  -- `Resources.Requests.Memory().Value()`, in bytes

pub record Volume : Type 0 where
  pub empty_dir : Bool  -- `EmptyDir != nil`

pub record PodCondition : Type 0 where
  pub status : Text
  pub reason : Text

pub record Pod : Type 0 where
  pub kind : Text
  pub api_version : Text
  pub namespace : Text
  pub name : Text
  pub uid : Text
  pub node_name : Text
  pub scheduler_name : Text
  pub phase : Text
  pub deletion_timestamp : Option Time
  pub annotations : Dict Text Text
  pub controller : Option OwnerRef  -- `metav1.GetControllerOf`
  pub volumes : List Volume
  pub containers : List Container
  pub scheduled_condition : Option PodCondition  -- `podv1.GetPodCondition(…, PodScheduled)`

pub record NodeCondition : Type 0 where
  pub type : Text
  pub status : Text
  pub reason : Text
  pub last_transition_time : Time

pub record Taint : Type 0 where
  pub key : Text
  pub time_added : Option Time

pub record Node : Type 0 where
  pub name : Text
  pub provider_id : Text
  pub creation_timestamp : Time
  pub labels : Dict Text Text
  pub annotations : Dict Text Text
  pub unschedulable : Bool
  pub conditions : List NodeCondition
  pub taints : List Taint

abbrev pub pod_succeeded : Text
pod_succeeded = text "Succeeded"

abbrev pub pod_failed : Text
pod_failed = text "Failed"

-- `phase == corev1.PodSucceeded || phase == corev1.PodFailed`
unfoldable pub is_finished : Pod → Bool
is_finished pod = pod.phase == pod_succeeded || pod.phase == pod_failed

abbrev pub condition_true : Text
condition_true = text "True"

abbrev pub condition_false : Text
condition_false = text "False"

abbrev pub condition_unknown : Text
condition_unknown = text "Unknown"
