-- ===== src/Listers/Classes.antt =====
-- The classes of pods that the listers tell apart.
use capten_autoscaler.Base.{
  subst, if◌then◌else◌, Text, Bool, true, false, List, [], ◌∷◌, select, Dict, ◌≡◌, inl, inr, In,
  Bool-cases, text_Eq, arith,
}
use capten_autoscaler.Cluster.Objects.{Pod}
use capten_autoscaler.Listers.{
  is_scheduled, is_unschedulable, is_unprocessed, scheduled_pods, unschedulable_pods,
  scheduler_unprocessed_pods,
}

-- What the three classes ask of a pod.
In-select : {A : Type 0} (p : A → Bool) (x : A) (xs : List A) → In x (select p xs) → p x ≡ true
In-select p x [] m = elim m [ ]
In-select p x (y ∷ ys) m =
    let taken = λ (b : Bool). In x (if b then y ∷ select p ys else select p ys) in
    elim (Bool-cases (p y)) [
      | inl kept ↦ elim (subst taken kept m) [ inl same ↦ cc | inr rest ↦ In-select p x ys rest ]
      | inr dropped ↦ In-select p x ys (subst taken dropped m)
    ]

unscheduled_if_unschedulable : (p : Pod) → is_unschedulable p ≡ true → is_scheduled p ≡ false
unfolding is_unschedulable
unscheduled_if_unschedulable p e = ground arith

unscheduled_if_unprocessed :
    (bypassed : Dict Text Bool) (p : Pod)
    → is_unprocessed bypassed p ≡ true
    → (is_scheduled p ≡ false) × (is_unschedulable p ≡ false)
unfolding is_unprocessed
unscheduled_if_unprocessed bypassed p e = ground arith

true-ne-false : {b : Bool} → b ≡ true → b ≡ false → ⊥
true-ne-false e f = cc

-- A pod is in at most one of the three classes: a pod that the scheduler has placed, one that it
-- found no node for, and one that it has not looked at are three pods, whatever the bypassed
-- schedulers.
pub classes_disjoint :
    (pods : List Pod) (bypassed : Dict Text Bool) (p : Pod)
    → ((In p (scheduled_pods pods) → In p (unschedulable_pods pods) → ⊥)
        × (In p (scheduled_pods pods) → In p (scheduler_unprocessed_pods pods bypassed) → ⊥)
        × (In p (unschedulable_pods pods) → In p (scheduler_unprocessed_pods pods bypassed) → ⊥))
unfolding scheduled_pods unschedulable_pods scheduler_unprocessed_pods
classes_disjoint pods bypassed p = (
  (λ a b.
      true-ne-false (In-select is_scheduled p pods a)
        (unscheduled_if_unschedulable p (In-select is_unschedulable p pods b))),
  (λ a b.
      true-ne-false (In-select is_scheduled p pods a)
        (unscheduled_if_unprocessed bypassed p (In-select (is_unprocessed bypassed) p pods b)).0),
  (λ a b.
      true-ne-false (In-select is_unschedulable p pods a)
        (unscheduled_if_unprocessed bypassed p (In-select (is_unprocessed bypassed) p pods b)).1),
)
