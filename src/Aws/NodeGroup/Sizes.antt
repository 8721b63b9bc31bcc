-- ===== src/Aws/NodeGroup/Sizes.antt =====
-- `IncreaseSize` and `DecreaseTargetSize`: the sizes that they ask for.
use capten_autoscaler.Base.{
  ◌≢◌, ℕ, ℤ, pos, ◌+ℤ◌, ◌≤ℤ◌, ◌<ℤ◌, leb_ℤ, ltb_ℤ, int64, int64_exact, FitsInt64, +ℤ_parts, true,
  false, Option, none, some, List, ◌∷◌, length, lookup, ◌≡◌, refl, inl, inr, Bool-cases, text_Eq,
  arith,
}
use capten_autoscaler.Cluster.Api.{Error, Outcome, done}
use capten_autoscaler.Aws.Types.{InstanceRef, Asg}
use capten_autoscaler.Aws.State.{set_desired_capacity, Service, State, set_cell, modify}
use capten_autoscaler.Aws.Groups.{instances_or_error, set_asg_size, after_set}
use capten_autoscaler.Aws.NodeGroup.{NodeGroup, increase_size, decrease_by, decrease_target_size}

module _ (svc : Service) (p : ℕ) (a : Asg) where
  -- The groups after an answer to a new capacity.
  abbrev pub resized : ℤ → Option Error → State → State
  resized size (some e) s = s
  resized size none s = record s { cell = set_cell s.cell p (record a { cur_size = size }) }

  -- The request is sent, its answer returned, and the size of the group set where it is no error.
  abbrev pub asked : ℤ → State → Outcome (Option Error) × State
  asked size s = (
    done (svc.on_set_desired_capacity s.log a.name size),
    resized size (svc.on_set_desired_capacity s.log a.name size)
        (record s { log = set_desired_capacity a.name size ∷ s.log }),
  )

  pub set_asg_size-asked :
      (size : ℤ) (s : State) → s.cell p ≡ some a → set_asg_size svc p size s ≡ asked size s
  unfolding set_asg_size modify
  set_asg_size-asked size s here =
      rw here (by_answer (svc.on_set_desired_capacity s.log a.name size))
    where
      by_answer :
          (e : Option Error)
          → after_set svc p size e (record s { log = set_desired_capacity a.name size ∷ s.log })
            ≡ (done e, resized size e (record s { log = set_desired_capacity a.name size ∷ s.log }))
      by_answer (some e) = refl
      by_answer none = rw here

module _ (svc : Service) (ng : NodeGroup) (a : Asg) (s : State)
    (here : s.cell ng.asg ≡ some a) where
  above_max :
      (delta size : ℤ)
      → leb_ℤ delta (pos 0) ≡ false
      → int64 (a.cur_size +ℤ delta) ≡ size
      → ltb_ℤ a.max_size size ≡ true
      → (increase_size svc ng delta s).1.log ≡ s.log
  unfolding increase_size
  above_max delta size positive e above = rw (positive, here, e, above)

  within_max :
      (delta size : ℤ)
      → leb_ℤ delta (pos 0) ≡ false
      → int64 (a.cur_size +ℤ delta) ≡ size
      → ltb_ℤ a.max_size size ≡ false
      → increase_size svc ng delta s ≡ asked svc ng.asg a size s
  unfolding increase_size
  within_max delta size positive e within =
      rw (positive, here, e, within) (set_asg_size-asked svc ng.asg a size s here)

  not_positive :
      (delta : ℤ) → leb_ℤ delta (pos 0) ≡ true → (increase_size svc ng delta s).1.log ≡ s.log
  unfolding increase_size
  not_positive delta low = rw low

  -- `IncreaseSize` asks for a capacity only if that is more than the current size and no more than the
  -- greatest size, where the sum of the current size and the increase is an `int`. Then the capacity is
  -- that sum, the answer is returned, and the size of the group becomes the sum if that is no error.
  pub increase_size-bounds :
      (delta : ℤ)
      → FitsInt64 (a.cur_size +ℤ delta)
      → (increase_size svc ng delta s).1.log ≢ s.log
      → (a.cur_size <ℤ (a.cur_size +ℤ delta))
        × ((a.cur_size +ℤ delta) ≤ℤ a.max_size)
        × (increase_size svc ng delta s ≡ asked svc ng.asg a (a.cur_size +ℤ delta) s)
  increase_size-bounds delta fits sent =
      let exact = int64_exact (a.cur_size +ℤ delta) fits in
      elim (Bool-cases (leb_ℤ delta (pos 0))) [
        | inl low ↦ absurd (sent (not_positive delta low))
        | inr positive ↦ elim (Bool-cases (ltb_ℤ a.max_size (a.cur_size +ℤ delta))) [
          | inl above ↦ absurd (sent (above_max delta (a.cur_size +ℤ delta) positive exact above))
          | inr within ↦ (
            ground (arith, +ℤ_parts a.cur_size delta),
            ground (arith, +ℤ_parts a.cur_size delta),
            within_max delta (a.cur_size +ℤ delta) positive exact within,
          )
        ]
      ]

  not_negative :
      (delta : ℤ) → leb_ℤ (pos 0) delta ≡ true → (decrease_target_size svc ng delta s).1.log ≡ s.log
  unfolding decrease_target_size
  not_negative delta high = rw high

  with_instances :
      (delta size : ℤ)
      → leb_ℤ (pos 0) delta ≡ false
      → int64 (a.cur_size +ℤ delta) ≡ size
      → decrease_target_size svc ng delta s
        ≡ decrease_by svc ng delta a
            (instances_or_error a.name (lookup a.name s.asg_to_instances))
            s
  unfolding decrease_target_size
  with_instances delta size negative e = rw (negative, here)

  -- `DecreaseTargetSize` asks for a capacity only if that is less than the current size and no less
  -- than the number of the instances that the cache knows of the group, where the sum of the current
  -- size and the negative change is an `int`. Then the capacity is that sum, the answer is returned,
  -- and the size of the group becomes the sum if that is no error.
  pub decrease_target_size-bounds :
      (delta : ℤ)
      → FitsInt64 (a.cur_size +ℤ delta)
      → (decrease_target_size svc ng delta s).1.log ≢ s.log
      → (instances : List InstanceRef) × (lookup a.name s.asg_to_instances ≡ some instances)
        × (pos (length instances) ≤ℤ (a.cur_size +ℤ delta))
        × ((a.cur_size +ℤ delta) <ℤ a.cur_size)
        × (decrease_target_size svc ng delta s ≡ asked svc ng.asg a (a.cur_size +ℤ delta) s)
  decrease_target_size-bounds delta fits sent = elim (Bool-cases (leb_ℤ (pos 0) delta)) [
    | inl high ↦ absurd (sent (not_negative delta high))
    | inr negative ↦
        rw
          (with_instances delta (a.cur_size +ℤ delta) negative
            (int64_exact (a.cur_size +ℤ delta) fits))
          (by_known negative (lookup a.name s.asg_to_instances) refl (λ e. sent (
            rw
              (with_instances delta (a.cur_size +ℤ delta) negative
                (int64_exact (a.cur_size +ℤ delta) fits))
              e)))
  ]
    where
      by_known :
          leb_ℤ (pos 0) delta ≡ false
          → (o : Option (List InstanceRef)) → lookup a.name s.asg_to_instances ≡ o
          → (decrease_by svc ng delta a (instances_or_error a.name o) s).1.log ≢ s.log
          → (instances : List InstanceRef) × (o ≡ some instances)
            × (pos (length instances) ≤ℤ (a.cur_size +ℤ delta))
            × ((a.cur_size +ℤ delta) <ℤ a.cur_size)
            × (decrease_by svc ng delta a (instances_or_error a.name o) s
                ≡ asked svc ng.asg a (a.cur_size +ℤ delta) s)
      by_known negative none e sent = absurd (sent refl)
      by_known negative (some nodes) e sent =
          let exact = int64_exact (a.cur_size +ℤ delta) fits in
          elim (Bool-cases (ltb_ℤ (a.cur_size +ℤ delta) (pos (length nodes)))) [
            | inl below ↦ absurd (sent (rw (exact, below)))
            | inr enough ↦ (
              nodes,
              refl,
              ground (arith, +ℤ_parts a.cur_size delta),
              ground (arith, +ℤ_parts a.cur_size delta),
              rw (exact, enough) (set_asg_size-asked svc ng.asg a (a.cur_size +ℤ delta) s here),
            )
          ]
