-- ===== src/Aws/State.antt =====
-- The state of an `AwsManager` with its `asgCache`, and actions on it. Groups are shared by pointer
-- between the maps of the cache and the node groups, so they live in a heap: a pointer is a number.
-- The mutex of the cache makes each of its operations one step.
pub mod Rules
pub mod Ends
use capten_autoscaler.Base.{
  ℕ, suc, nat_eq, ℤ, Text, Bool, Option, none, some, List, ◌∷◌, Dict, if◌then◌else◌,
}
use capten_autoscaler.Cluster.Api.{Error, Result, Outcome, done, panicked, exited, unfinished}
use capten_autoscaler.Aws.Types.{InstanceRef, Instant, Asg, NodeGroupSpec, Activity}

-- The calls that leave the process, and looks at the clock.
pub data Request : Type 0 where
  set_desired_capacity : (group : Text) (capacity : ℤ) → Request
  terminate_instance : (instance_id : Text) → Request
  describe_scaling_activities : (group : Option Text) → Request
  read_clock : Request

abbrev pub Log : Type 0
Log = List Request

-- The AWS service and the libraries, whose answers depend on the requests before, newest first.
pub record Service : Type 0 where
  pub on_set_desired_capacity : Log → (group : Text) (capacity : ℤ) → Option Error
  -- `resp.Activity.Description`, where a pointer on the way may be nil
  pub on_terminate_instance : Log → (instance_id : Text) → Result (Option Text)
  pub on_describe_scaling_activities : Log → (group : Option Text) → Result (List Activity)
  pub on_read_clock : Log → Instant
  -- `dynamic.SpecFromString(spec, true)` and `spec.Validate()`
  pub spec_from_string : Text → Result NodeGroupSpec
  pub validate : NodeGroupSpec → Option Error
  -- whether an entry of the expiration store is past its time to live
  pub expired : Log → (name : Text) → Bool
  -- the orders in which `range` visits a map
  pub range_names : List Text → List Text
  pub range_groups : Dict Text ℕ → Dict Text ℕ

pub record State : Type 0 where
  pub next : ℕ
  pub cell : ℕ → Option Asg
  pub registered_asgs : Dict Text ℕ
  pub asg_to_instances : Dict Text (List InstanceRef)
  pub instance_to_asg : Dict InstanceRef ℕ
  pub instance_status : Dict InstanceRef (Option Text)
  pub instance_lifecycle : Dict InstanceRef (Option Text)
  pub explicitly_configured : Dict Text Bool
  pub autoscaling_options : Dict Text (Dict Text Text)
  pub asg_instance_type_cache : Dict Text Text
  pub last_refresh : Instant
  pub log : Log

abbrev pub Act {ℓ} : Type ℓ → Type ℓ
Act A = State → Outcome A × State

module _ {ℓ} {A : Type ℓ} where
  abbrev pub pure : A → Act A
  pure a s = (done a, s)

  abbrev pub panic : Act A
  panic s = (panicked, s)

  abbrev pub gets : (State → A) → Act A
  gets f s = (done (f s), s)

  -- A call of the service: it answers, and the call is recorded.
  abbrev pub send : Request → (Log → A) → Act A
  send r answer s = (done (answer s.log), record s { log = r ∷ s.log })

module _ {ℓ κ} {A : Type ℓ} {B : Type κ} where
  abbrev pub continue : Outcome A → (A → Act B) → Act B
  continue (done a) f s = f a s
  continue panicked f s = (panicked, s)
  continue exited f s = (exited, s)
  continue unfinished f s = (unfinished, s)

  infixl 5 ◌>>=◌ ◌>>◌
  abbrev pub ◌>>=◌ : Act A → (A → Act B) → Act B
  ◌>>=◌ m f s = continue (m s).0 f (m s).1

  abbrev pub ◌>>◌ : Act A → Act B → Act B
  m >> n = m >>= λ _. n

-- The value of a computation that needs no state.
abbrev pub lift {ℓ} : {A : Type ℓ} → Outcome A → Act A
lift o s = (o, s)

-- A nil pointer, or one into nowhere, panics.
abbrev pub from_option {ℓ} : {A : Type ℓ} → Option A → Act A
from_option none = panic
from_option (some a) = pure a

abbrev pub set_cell : (ℕ → Option Asg) → ℕ → Asg → ℕ → Option Asg
set_cell cell p a q = if nat_eq p q then some a else cell q

-- `*p`
abbrev pub load : ℕ → Act Asg
load p = gets (λ s. s.cell p) >>= from_option

abbrev pub store : ℕ → Asg → Act (Unit {0})
store p a s = (done tt, record s { cell = set_cell s.cell p a })

-- A write to fields of `*p`.
unfoldable pub modify : ℕ → (Asg → Asg) → Act (Unit {0})
modify p f = load p >>= λ a. store p (f a)

-- `&asg{…}`
abbrev pub allocate : Asg → Act ℕ
allocate a s = (done s.next, record s { next = suc s.next; cell = set_cell s.cell s.next a })
