-- ===== src/Readiness/Verdict.antt =====
-- What `GetNodeReadiness` finds, told without the order of its scan.
use capten_autoscaler.Base.{
  text, lookup, text_eq_iff, text_eq_sym, ◌≢◌, sym, inl, inr, Bool-cases, select, Text, Bool, true,
  false, not, ◌&&◌, ◌||◌, List, [], ◌∷◌, select, any, ◌≡◌, ◌∙◌, ap, refl, ◌==◌, text_Eq, text_eq,
  if◌then◌else◌, arith, Bool-cases,
}
use capten_autoscaler.Cluster.Objects.{NodeCondition, Taint, Node, condition_false}
use capten_autoscaler.Cluster.Api.{Result, ok, err}
use capten_autoscaler.Readiness.{
  node_ready, NodeReadiness, Scan, start, scan_condition, scan_conditions, is_not_ready_taint,
  scan_taint, scan_taints, conclude, get_node_readiness, ready_of, get_unready_node_copy,
}

abbrev pub is_ready_condition : NodeCondition → Bool
is_ready_condition c = c.type == node_ready

-- A condition under which the node is not ready: it is not known to be ready, its disks are full, or its
-- network is not available.
abbrev pub is_blocking : NodeCondition → Bool
is_blocking c =
    (c.type == text "Ready" && (c.status == text "False" || c.status == text "Unknown"))
    || ((c.type == text "DiskPressure" || c.type == text "NetworkUnavailable")
        && c.status == text "True")

-- A taint of a node that is not ready.
abbrev pub is_blocking_taint : Taint → Bool
is_blocking_taint taint =
    taint.key == text "node.kubernetes.io/not-ready"
    || (taint.key == text "node.kubernetes.io/disk-pressure"
        || taint.key == text "node.kubernetes.io/network-unavailable")

is_not_ready_taint_lem : (taint : Taint) → is_not_ready_taint taint ≡ is_blocking_taint taint
unfolding is_not_ready_taint lookup
is_not_ready_taint_lem taint = ground (
  arith,
  text_eq_sym taint.key (text "node.kubernetes.io/not-ready"),
  text_eq_sym taint.key (text "node.kubernetes.io/disk-pressure"),
  text_eq_sym taint.key (text "node.kubernetes.io/network-unavailable"),
)

-- A condition that is the node's `Ready` is of no other type.
one_type : (s t : Text) → t ≢ text "Ready" → s == text "Ready" ≡ true → s == t ≡ false
one_type s t other ready = elim (Bool-cases (s == t)) [
  | inl same ↦
      absurd (other (sym ((text_eq_iff s t).0 same) ∙ (text_eq_iff s (text "Ready")).0 ready))
  | inr differs ↦ differs
]

scan_condition_can :
    (s : Scan) (c : NodeCondition)
    → (scan_condition s c).can_be_ready ≡ (s.can_be_ready && not (is_blocking c))
unfolding scan_condition
scan_condition_can s c = ground (
  arith,
  one_type c.type (text "DiskPressure") cc,
  one_type c.type (text "NetworkUnavailable") cc,
)

scan_condition_found :
    (s : Scan) (c : NodeCondition)
    → (scan_condition s c).ready_found ≡ (s.ready_found || is_ready_condition c)
unfolding scan_condition
scan_condition_found s c = ground arith

and_nor : (a b c : Bool) → ((a && not b) && not c) ≡ (a && not (if b then true else c))
and_nor true true c = refl
and_nor true false c = refl
and_nor false b c = refl

or_assoc : (a b c : Bool) → ((a || b) || c) ≡ (a || (if b then true else c))
or_assoc true b c = refl
or_assoc false true c = refl
or_assoc false false true = refl
or_assoc false false false = refl

scan_conditions_can :
    (s : Scan) (cs : List NodeCondition)
    → (scan_conditions s cs).can_be_ready ≡ (s.can_be_ready && not (any is_blocking cs))
unfolding scan_conditions
scan_conditions_can s [] = ground arith
scan_conditions_can s (c ∷ cs) =
    scan_conditions_can (scan_condition s c) cs
    ∙ ap (λ b. b && not (any is_blocking cs)) (scan_condition_can s c)
    ∙ and_nor s.can_be_ready (is_blocking c) (any is_blocking cs)

scan_conditions_found :
    (s : Scan) (cs : List NodeCondition)
    → (scan_conditions s cs).ready_found ≡ (s.ready_found || any is_ready_condition cs)
unfolding scan_conditions
scan_conditions_found s [] = ground arith
scan_conditions_found s (c ∷ cs) =
    scan_conditions_found (scan_condition s c) cs
    ∙ ap (λ b. b || any is_ready_condition cs) (scan_condition_found s c)
    ∙ or_assoc s.ready_found (is_ready_condition c) (any is_ready_condition cs)

scan_taint_can :
    (s : Scan) (t : Taint)
    → (scan_taint s t).can_be_ready ≡ (s.can_be_ready && not (is_blocking_taint t))
unfolding scan_taint
scan_taint_can s t = ground (arith, is_not_ready_taint_lem t)

scan_taint_found : (s : Scan) (t : Taint) → (scan_taint s t).ready_found ≡ s.ready_found
unfolding scan_taint
scan_taint_found s t = ground arith

scan_taints_can :
    (s : Scan) (ts : List Taint)
    → (scan_taints s ts).can_be_ready ≡ (s.can_be_ready && not (any is_blocking_taint ts))
unfolding scan_taints
scan_taints_can s [] = ground arith
scan_taints_can s (t ∷ ts) =
    scan_taints_can (scan_taint s t) ts
    ∙ ap (λ b. b && not (any is_blocking_taint ts)) (scan_taint_can s t)
    ∙ and_nor s.can_be_ready (is_blocking_taint t) (any is_blocking_taint ts)

scan_taints_found : (s : Scan) (ts : List Taint) → (scan_taints s ts).ready_found ≡ s.ready_found
unfolding scan_taints
scan_taints_found s [] = refl
scan_taints_found s (t ∷ ts) = scan_taints_found (scan_taint s t) ts ∙ scan_taint_found s t

scan_condition_reason :
    (s : Scan) (c : NodeCondition)
    → is_ready_condition c ≡ false
    → (scan_condition s c).reason ≡ s.reason
unfolding scan_condition
scan_condition_reason s c e = ground arith

scan_conditions_reason :
    (s : Scan) (cs : List NodeCondition)
    → (scan_conditions s (select (λ c. not (c.type == node_ready)) cs)).reason ≡ s.reason
unfolding scan_conditions
scan_conditions_reason s [] = refl
scan_conditions_reason s (c ∷ cs) =
    let rest = select (λ c. not (c.type == node_ready)) cs in
    let taken = λ (b : Bool). (scan_conditions s (if not b then c ∷ rest else rest)).reason in
    elim (Bool-cases (c.type == node_ready)) [
      | inl e ↦ ap taken e ∙ scan_conditions_reason s cs
      | inr e ↦
          ap taken e ∙ scan_conditions_reason (scan_condition s c) cs ∙ scan_condition_reason s c e
    ]

scan_taint_reason : (s : Scan) (t : Taint) → (scan_taint s t).reason ≡ s.reason
unfolding scan_taint
scan_taint_reason s t = ground arith

scan_taints_reason : (s : Scan) (ts : List Taint) → (scan_taints s ts).reason ≡ s.reason
unfolding scan_taints
scan_taints_reason s [] = refl
scan_taints_reason s (t ∷ ts) = scan_taints_reason (scan_taint s t) ts ∙ scan_taint_reason s t

abbrev pub is_error : Result NodeReadiness → Bool
is_error (ok r) = false
is_error (err e) = true

conclude_ready : (s : Scan) → ready_of (conclude s) ≡ (s.ready_found && s.can_be_ready)
conclude_ready s = ground arith

conclude_error : (s : Scan) → is_error (conclude s) ≡ not s.ready_found
conclude_error s = ground arith

-- What `GetNodeReadiness` decides, for the conditions and the taints in any order: it is an error
-- exactly if no condition is the node's `Ready`, and the node is ready exactly if it has one, no
-- condition is a `Ready` that is `False` or `Unknown`, or a `DiskPressure` or `NetworkUnavailable` that
-- is `True`, and no taint has the key `not-ready`, `disk-pressure` or `network-unavailable` of
-- `node.kubernetes.io`.
pub get_node_readiness_lem :
    (node : Node)
    → (is_error (get_node_readiness node) ≡ not (any is_ready_condition node.conditions))
      × (ready_of (get_node_readiness node) ≡ (
          any is_ready_condition node.conditions
          && (not (any is_blocking node.conditions) && not (any is_blocking_taint node.taints))))
unfolding get_node_readiness
get_node_readiness_lem node =
    let s = scan_conditions start node.conditions in
    let found = scan_taints_found s node.taints ∙ scan_conditions_found start node.conditions in
    let can =
      scan_taints_can s node.taints
      ∙ ap (λ b. b && not (any is_blocking_taint node.taints))
          (scan_conditions_can start node.conditions) in
    (
      conclude_error (scan_taints s node.taints) ∙ ap not found,
      conclude_ready (scan_taints s node.taints)
          ∙ ap (λ b. b && (scan_taints s node.taints).can_be_ready) found
          ∙ ap (λ b. any is_ready_condition node.conditions && b) can,
    )

conclude_found :
    (s : Scan) {reason : Text}
    → s.ready_found ≡ true
    → s.can_be_ready ≡ false
    → s.reason ≡ reason
    → (r : NodeReadiness) × (conclude s ≡ ok r) × (r.ready ≡ false) × (r.reason ≡ reason)
conclude_found s found can why = (
  record { ready = s.can_be_ready; last_transition_time = s.last; reason = s.reason },
  rw found,
  can,
  why,
)

abbrev unready_condition : Node → Text → NodeCondition
unready_condition node reason = record {
  type = node_ready;
  status = condition_false;
  reason = reason;
  last_transition_time = node.creation_timestamp;
}

-- `GetUnreadyNodeCopy` gives a node that is not ready, for the given reason and no other, whatever
-- the conditions and taints of the node it copies.
pub unready_copy_is_unready :
    (node : Node) (reason : Text)
    → (r : NodeReadiness) × (get_node_readiness (get_unready_node_copy node reason) ≡ ok r)
      × (r.ready ≡ false)
      × (r.reason ≡ reason)
unfolding get_node_readiness get_unready_node_copy scan_conditions text_eq
unready_copy_is_unready node reason =
    let copy = get_unready_node_copy node reason in
    let s = scan_conditions start copy.conditions in
    conclude_found (scan_taints s copy.taints)
      (scan_taints_found s copy.taints ∙ scan_conditions_found start copy.conditions)
      (scan_taints_can s copy.taints
        ∙ ap (λ b. b && not (any is_blocking_taint copy.taints))
            (scan_conditions_can start copy.conditions))
      (scan_taints_reason s copy.taints
        ∙ scan_conditions_reason (scan_condition start (unready_condition node reason))
            node.conditions)
