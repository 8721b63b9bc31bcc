-- ===== src/Drain/Wait/Sight.antt =====
-- What ends the wait for a pod, told by the API server's answer and the clock.
use capten_autoscaler.Base.{
  ℤ, pos, ◌+ℤ◌, +ℤ_parts, -ℤ_parts, int_Eq, ◌<ℤ◌, true, false, text_eq_iff, text_Eq, Option, none,
  some, ◌≡◌, ◌≢◌, refl, ◌⊎◌, inl, inr, Bool-cases, arith,
}
use capten_autoscaler.Cluster.Objects.{Time, Pod}
use capten_autoscaler.Cluster.Api.{Error, is_not_found, PodAnswer, History, Env}
use capten_autoscaler.Drain.Filter.{should_skip_pod, seconds_since}
use capten_autoscaler.Drain.Wait.{gone, skipped, is_other_pod, sight}

-- The answer to a look at the pod is that there is none of its name, that there is another pod of its
-- name, or that it was to be gone more than `limit` seconds ago, for a limit above zero.
pub data IsOver (limit : ℤ) (pod : Pod) (answer : PodAnswer) (now : Time) : Type 0 where
  missing :
      (e : Error) → answer.error ≡ some e → is_not_found e ≡ true → IsOver limit pod answer now
  replaced : (p : Pod) → answer.found ≡ some p → p.uid ≢ pod.uid → IsOver limit pod answer now
  overdue :
      (p : Pod) (t : Time)
      → answer.error ≡ none
      → answer.found ≡ some p
      → p.uid ≡ pod.uid
      → p.deletion_timestamp ≡ some t
      → t ≢ pos 0
      → pos 0 <ℤ limit
      → (t +ℤ limit) <ℤ now
      → IsOver limit pod answer now

late : (limit now t : ℤ) → pos 0 <ℤ limit → limit <ℤ seconds_since now t → (t +ℤ limit) <ℤ now
unfolding seconds_since
late limit now t positive over = ground (arith, +ℤ_parts t limit, -ℤ_parts now t)

skip_inv :
    (p : Pod) (limit now : ℤ)
    → should_skip_pod p limit now ≡ true
    → (t : Time) × (p.deletion_timestamp ≡ some t)
      × (t ≢ pos 0)
      × (pos 0 <ℤ limit)
      × ((t +ℤ limit) <ℤ now)
unfolding should_skip_pod
skip_inv p limit now e = by_stamp p.deletion_timestamp refl
  where
    by_stamp :
        (stamp : Option Time)
        → p.deletion_timestamp ≡ stamp
        → (t : Time) × (p.deletion_timestamp ≡ some t)
          × (t ≢ pos 0)
          × (pos 0 <ℤ limit)
          × ((t +ℤ limit) <ℤ now)
    by_stamp none same = let bad = rw same at e in ground arith
    by_stamp (some t) same =
        let stamped = rw same at e in
        (
          t,
          same,
          (λ zeroed. ground arith),
          ground arith,
          late limit now t (ground arith) (ground arith),
        )

-- The wait for a pod ends where it is seen gone or skipped, which is only where the answer says so.
pub sight-IsOver :
    (env : Env) (limit : ℤ) (pod : Pod) (answer : PodAnswer) (h : History)
    → (sight env limit pod answer h ≡ gone) ⊎ (sight env limit pod answer h ≡ skipped)
    → IsOver limit pod answer (env.now h)
unfolding sight
sight-IsOver env limit pod answer h seen = by_parts answer.error answer.found refl refl seen
  where
    by_other :
        (error : Option Error) (found : Option Pod)
        → answer.found ≡ found
        → is_other_pod env pod found ≡ true
        → IsOver limit pod answer (env.now h)
    by_other error none same other = cc
    by_other error (some p) same other =
        replaced p same (λ equal. let known = (text_eq_iff p.uid pod.uid).1 equal in ground arith)

    by_skip :
        (p : Pod)
        → answer.error ≡ none
        → answer.found ≡ some p
        → is_other_pod env pod (some p) ≡ false
        → should_skip_pod p limit (env.now h) ≡ true
        → IsOver limit pod answer (env.now h)
    by_skip p quiet same its_own skip =
        let (t, stamped, set, positive, over) = skip_inv p limit (env.now h) skip in
        overdue p t quiet same ((text_eq_iff p.uid pod.uid).0 (ground arith)) stamped set positive
          over

    by_parts :
        (error : Option Error) (found : Option Pod)
        → answer.error ≡ error
        → answer.found ≡ found
        → (sight env limit pod (record { error = error; found = found }) h ≡ gone)
          ⊎ (sight env limit pod (record { error = error; found = found }) h ≡ skipped)
        → IsOver limit pod answer (env.now h)
    by_parts (some e) found failed same seen = elim (Bool-cases (is_not_found e)) [
      | inl lacks ↦ missing e failed lacks
      | inr other_error ↦ elim (Bool-cases (is_other_pod env pod found)) [
        | inl other ↦ by_other (some e) found same other
        | inr its_own ↦ ground arith
      ]
    ]
    by_parts none none quiet same seen = ground arith
    by_parts none (some p) quiet same seen = elim (Bool-cases (is_other_pod env pod (some p))) [
      | inl other ↦ by_other none (some p) same other
      | inr its_own ↦ elim (Bool-cases (should_skip_pod p limit (env.now h))) [
        | inl skip ↦ by_skip p quiet same its_own skip
        | inr present_still ↦ ground arith
      ]
    ]
