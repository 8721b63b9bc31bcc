-- ===== src/Aws/Groups/Rounds.antt =====
-- One round of the loop that deletes, for any invariant that a request and a write to a group keep.
use capten_autoscaler.Base.{
  ℕ, Text, Bool, true, false, Option, none, some, lookup, ◌≡◌, refl, inl, inr, Bool-cases,
  if◌then◌else◌,
}
use capten_autoscaler.Cluster.Api.{Error, Outcome, done, panicked, exited, unfinished}
use capten_autoscaler.Aws.Types.{InstanceRef, ref_Eq}
use capten_autoscaler.Aws.State.{Request, terminate_instance, Service, State, Act, ◌>>=◌, lift}
use capten_autoscaler.Aws.State.Rules.{Does, Extends-refl, Does-pure, Does-bind, Does-read}
use capten_autoscaler.Aws.Groups.{
  is_placeholder_instance, is_terminating, known_or_error, after_lifecycle, terminate, delete_one,
  decrease_asg_size_by_one,
}
use capten_autoscaler.Aws.Groups.Stable.{IsStable, MayResize, decrease-Does, terminate-Does}

module _ (svc : Service) (I : State → Type 0) (stable : IsStable I) (P : Request → Type 0) where
  by_lifecycle :
      (p : ℕ) (i : InstanceRef) (l : Option Text) (rest : Act (Option Error)) (o : Outcome Bool)
      → is_terminating l ≡ o
      → (is_terminating l ≡ done false → P (terminate_instance i.name))
      → Does I P rest
      → Does I P (lift o >>= λ going. if going then rest else terminate svc p i rest)
  by_lifecycle p i l rest (done true) e x k = record { keeps = k.keeps; adds = k.adds }
  by_lifecycle p i l rest (done false) e x k =
      let d = terminate-Does I stable P svc p i rest (x e) k in
      record { keeps = d.keeps; adds = d.adds }
  by_lifecycle p i l rest panicked e x k = record {
    keeps = λ s j. j;
    adds = λ s j. Extends-refl P s.log;
  }
  by_lifecycle p i l rest exited e x k = record {
    keeps = λ s j. j;
    adds = λ s j. Extends-refl P s.log;
  }
  by_lifecycle p i l rest unfinished e x k = record {
    keeps = λ s j. j;
    adds = λ s j. Extends-refl P s.log;
  }

  after_entry :
      (p : ℕ) (i : InstanceRef) (entry : Option (Option Text)) (rest : Act (Option Error))
      → ((l : Option Text)
          → entry ≡ some l
          → is_terminating l ≡ done false
          → P (terminate_instance i.name))
      → Does I P rest
      → Does I P (after_lifecycle svc p i (known_or_error i entry) rest)
  after_entry p i none rest x k = Does-pure I P _
  after_entry p i (some l) rest x k = by_lifecycle p i l rest (is_terminating l) refl (x l refl) k

  -- One round, where the request that it may make has the property.
  pub delete_one-Does :
      (p : ℕ) (i : InstanceRef) (rest : Act (Option Error))
      → (is_placeholder_instance i ≡ true → MayResize I stable P svc p)
      → (is_placeholder_instance i ≡ false
          → (s : State) → I s
          → (l : Option Text) → lookup i s.instance_lifecycle ≡ some l
          → is_terminating l ≡ done false
          → P (terminate_instance i.name))
      → Does I P rest
      → Does I P (delete_one svc p i rest)
  delete_one-Does p i rest x y k = elim (Bool-cases (is_placeholder_instance i)) [
    | inl yes_it ↦ rw yes_it (
        Does-bind I P (decrease_asg_size_by_one svc p) (λ e. rest)
          (decrease-Does I stable P svc p (x yes_it)) (λ e. k))
    | inr not_it ↦ rw not_it (
        Does-read I P (λ s. known_or_error i (lookup i s.instance_lifecycle))
          (λ r. after_lifecycle svc p i r rest)
          (λ s j. after_entry p i (lookup i s.instance_lifecycle) rest (y not_it s j) k))
  ]
