-- ===== src/Aws/Groups/Accounting.antt =====
-- `DeleteInstances`: the current size of the group follows the terminations; the invariant.
use capten_autoscaler.Base.{
  ℕ, suc, ◌+◌, ◌≤◌, nat_eq_iff, ℤ, pos, ◌+ℤ◌, ◌-ℤ◌, ◌≤ℤ◌, int64, int64_exact, FitsInt64, Text, Bool,
  true, false, Option, none, some, List, [], ◌∷◌, ◌++◌, append_assoc, length, length-append, lookup,
  ◌≡◌, ◌≢◌, refl, sym, ◌∙◌, All, arith, if◌then◌else◌,
}
use capten_autoscaler.Cluster.Api.{
  Error, Result, ok, err, Outcome, done, panicked, exited, unfinished,
}
use capten_autoscaler.Aws.Types.{InstanceRef, ref_Eq, Asg}
use capten_autoscaler.Aws.State.{
  Log, Request, terminate_instance, Service, State, Act, ◌>>=◌, ◌>>◌, lift, set_cell, modify,
}
use capten_autoscaler.Aws.State.Ends.{some-none, panicked_done, exited_done, unfinished_done}
use capten_autoscaler.Aws.Groups.{
  is_placeholder_instance, is_terminating, known_or_error, shrink_by_one, after_terminate,
  after_lifecycle, terminate, delete_one, delete_each, Common, same, differs, check_common,
  delete_common, refuse, delete_instances,
}

-- From `s` to `t`, the size of the group at `p` went down from `a`'s by one for each new request.
abbrev pub Shrunk : ℕ → ℕ → Asg → State → State → Type 0
Shrunk n p a s t =
    (new : Log) × (b : Asg) × (t.log ≡ new ++ s.log)
    × (t.cell p ≡ some b)
    × (b.cur_size +ℤ pos (length new) ≡ a.cur_size)
    × (length new ≤ n)

-- Where the action returns no error, it does that.
abbrev Shrinks : ℕ → ℕ → Act (Option Error) → Type 0
Shrinks n p m =
    (a : Asg) (s : State)
    → s.cell p ≡ some a
    → FitsInt64 a.cur_size
    → pos n ≤ℤ a.cur_size
    → (m s).0 ≡ done none
    → Shrunk n p a s (m s).1

less_fits : (n : ℕ) (size : ℤ) → FitsInt64 size → pos (suc n) ≤ℤ size → FitsInt64 (size -ℤ pos 1)
unfolding ◌-ℤ◌
less_fits n size fits enough = ground arith

less_enough : (n : ℕ) (size : ℤ) → pos (suc n) ≤ℤ size → pos n ≤ℤ (size -ℤ pos 1)
unfolding ◌-ℤ◌
less_enough n size enough = ground arith

back :
    (size b less : ℤ) (m : ℕ) → b +ℤ pos m ≡ less → less ≡ size -ℤ pos 1 → b +ℤ pos (m + 1) ≡ size
unfolding ◌-ℤ◌ ◌+ℤ◌
back size b less m e e' = ground arith

one_less :
    (n : ℕ) (size : ℤ)
    → FitsInt64 size
    → pos (suc n) ≤ℤ size
    → (int64 (size -ℤ pos 1) ≡ size -ℤ pos 1)
      × FitsInt64 (size -ℤ pos 1)
      × (pos n ≤ℤ (size -ℤ pos 1))
one_less n size fits enough = (
  int64_exact (size -ℤ pos 1) (less_fits n size fits enough),
  less_fits n size fits enough,
  less_enough n size enough,
)

module _ (svc : Service) (p n : ℕ) (i : InstanceRef) (rest : Act (Option Error))
    (k : Shrinks n p rest) where
  -- After an answer to the request `r`.
  after_shrink :
      (a : Asg) (s : State) (r : Request) (less : ℤ)
      → int64 (a.cur_size -ℤ pos 1) ≡ less
      → less ≡ a.cur_size -ℤ pos 1
      → s.cell p ≡ some a
      → FitsInt64 less
      → pos n ≤ℤ less
      → ((modify p (shrink_by_one svc) >> rest) (record s { log = r ∷ s.log })).0 ≡ done none
      → Shrunk
          (suc n)
          p
          a
          s
          ((modify p (shrink_by_one svc) >> rest) (record s { log = r ∷ s.log })).1
  unfolding modify
  after_shrink a s r less wraps e here fits enough e' =
      let shrunk = shrink_by_one svc a in
      let (new, b, grown, there, sum, few) =
        k shrunk (record s { log = r ∷ s.log; cell = set_cell s.cell p shrunk })
          (ground (arith, nat_eq_iff p p)) (rw wraps fits) (rw wraps enough) (rw here at e') in
      rw here (
        new ++ r ∷ [],
        b,
        grown ∙ sym (append_assoc new (r ∷ []) s.log),
        there,
        rw (length-append new (r ∷ []))
            (back a.cur_size b.cur_size less (length new) (sum ∙ wraps) e),
        omega (arith, few, length-append new (r ∷ [])),
      )

  after_answer :
      (answer : Result (Option Text)) (a : Asg) (s : State) (r : Request)
      → s.cell p ≡ some a
      → FitsInt64 a.cur_size
      → pos (suc n) ≤ℤ a.cur_size
      → (after_terminate svc p answer rest (record s { log = r ∷ s.log })).0 ≡ done none
      → Shrunk (suc n) p a s (after_terminate svc p answer rest (record s { log = r ∷ s.log })).1
  after_answer (err e) a s r here fits enough e' = absurd (some-none e')
  after_answer (ok none) a s r here fits enough e' = absurd (panicked_done e')
  after_answer (ok (some d)) a s r here fits enough e' =
      let (wraps, less_fits, still) = one_less n a.cur_size fits enough in
      after_shrink a s r (a.cur_size -ℤ pos 1) wraps refl here less_fits still e'

  after_lifecycle-Shrunk :
      (l : Result (Option Text)) (a : Asg) (s : State)
      → s.cell p ≡ some a
      → FitsInt64 a.cur_size
      → pos (suc n) ≤ℤ a.cur_size
      → (after_lifecycle svc p i l rest s).0 ≡ done none
      → Shrunk (suc n) p a s (after_lifecycle svc p i l rest s).1
  after_lifecycle-Shrunk (err e) a s here fits enough e' = absurd (some-none e')
  after_lifecycle-Shrunk (ok l) a s here fits enough e' = by_going (is_terminating l) e'
    where
      by_going :
          (o : Outcome Bool)
          → ((lift o >>= λ going. if going then rest else terminate svc p i rest) s).0 ≡ done none
          → Shrunk
              (suc n)
              p
              a
              s
              ((lift o >>= λ going. if going then rest else terminate svc p i rest) s).1
      by_going (done true) e' =
          let (new, b, grown, there, sum, few) = k a s here fits (omega arith) e' in
          (new, b, grown, there, sum, omega arith)
      by_going (done false) e' =
          after_answer (svc.on_terminate_instance s.log i.name) a s (terminate_instance i.name) here
            fits enough e'
      by_going panicked e' = absurd (panicked_done e')
      by_going exited e' = absurd (exited_done e')
      by_going unfinished e' = absurd (unfinished_done e')

  delete_one-Shrinks :
      is_placeholder_instance i ≡ false → Shrinks (suc n) p (delete_one svc p i rest)
  delete_one-Shrinks real a s here fits enough e = rw real (
      after_lifecycle-Shrunk (known_or_error i (lookup i s.instance_lifecycle)) a s here fits enough
        (rw real at e))

add_zero : (size : ℤ) → size +ℤ pos 0 ≡ size
unfolding ◌+ℤ◌
add_zero size = ground arith

delete_each-Shrinks :
    (svc : Service) (p : ℕ) (instances : List InstanceRef)
    → All (λ i. is_placeholder_instance i ≡ false) instances
    → Shrinks (length instances) p (delete_each svc p instances)
unfolding delete_each
delete_each-Shrinks svc p [] reals =
    λ a s here fits enough e. ([], a, refl, here, add_zero a.cur_size, omega arith)
delete_each-Shrinks svc p (i ∷ instances) (real, reals) =
    delete_one-Shrinks svc p (length instances) i (delete_each svc p instances)
      (delete_each-Shrinks svc p instances reals) real

module _ (svc : Service) (p : ℕ) (instances : List InstanceRef) (a : Asg) (s : State)
    (here : s.cell p ≡ some a) where
  refuse-fails : (q : Option ℕ) → (refuse svc p q instances s).0 ≢ done none
  refuse-fails none e = panicked_done (rw here at e)
  refuse-fails (some q) e = by_cell (s.cell q) refl
    where
      by_cell : (o : Option Asg) → s.cell q ≡ o → ⊥
      by_cell none at = panicked_done (rw (here, at) at e)
      by_cell (some b) at = some-none (rw (here, at) at e)

  delete_common-Shrunk :
      (c : Common)
      → All (λ i. is_placeholder_instance i ≡ false) instances
      → FitsInt64 a.cur_size
      → pos (length instances) ≤ℤ a.cur_size
      → (delete_common svc p instances c s).0 ≡ done none
      → Shrunk (length instances) p a s (delete_common svc p instances c s).1
  delete_common-Shrunk same reals fits enough e =
      delete_each-Shrinks svc p instances reals a s here fits enough e
  delete_common-Shrunk (differs q) reals fits enough e = absurd (refuse-fails q e)

-- Where a deletion of instances, none of them a placeholder, returns without an error, the current size
-- of their group went down by exactly the number of the requests that it made, which is no more than
-- the number of the instances; where the size is an `int` and no less than that number.
pub delete_instances-Shrunk :
    (svc : Service) (p : ℕ) (i : InstanceRef) (instances : List InstanceRef) (a : Asg) (s : State)
    → lookup i s.instance_to_asg ≡ some p
    → s.cell p ≡ some a
    → All (λ i. is_placeholder_instance i ≡ false) (i ∷ instances)
    → FitsInt64 a.cur_size
    → pos (length (i ∷ instances)) ≤ℤ a.cur_size
    → (delete_instances svc (i ∷ instances) s).0 ≡ done none
    → Shrunk (length (i ∷ instances)) p a s (delete_instances svc (i ∷ instances) s).1
unfolding delete_instances
delete_instances-Shrunk svc p i instances a s of_group here reals fits enough e = rw of_group (
    delete_common-Shrunk svc p (i ∷ instances) a s here
      (check_common s.instance_to_asg p (i ∷ instances)) reals fits enough (rw of_group at e))
