-- ===== src/Aws/Refresh/Built.antt =====
-- The loop that registers the groups and builds the maps keeps the invariant of the cache.
use capten_autoscaler.Base.{
  ℕ, true, false, some, List, [], ◌∷◌, lookup, lookup-insert, insert, ◌≡◌, sym, subst, ◌∙◌, inl,
  inr, Bool-cases, ◌==◌, text_Eq, ◌⊎◌,
}
use capten_autoscaler.Cluster.Api.{Result, ok, err, Outcome, done, panicked, exited, unfinished}
use capten_autoscaler.Aws.Types.{InstanceRef, ref_Eq, Asg, Instance, Group}
use capten_autoscaler.Aws.State.{Service, State, Act, continue}
use capten_autoscaler.Aws.Refs.{build_instance_ref}
use capten_autoscaler.Aws.Groups.{register}
use capten_autoscaler.Aws.Groups.WellFormed.{IsWellFormed}
use capten_autoscaler.Aws.Groups.Register.{
  IsLive, IsLiveResult, register-IsLive, register-IsWellFormed,
}
use capten_autoscaler.Aws.Refresh.{
  Fresh, add_instance, add_instances, add_group, build_asg_from_aws, after_build, register_groups,
}

-- The groups of the new map of instances stand in the heap.
abbrev pub IsFresh : State → Fresh → Type 0
IsFresh s f = (i : InstanceRef) (p : ℕ) → lookup i f.instance_to_asg ≡ some p → IsLive s p

some-inj : {a b : ℕ} → some a ≡ some b → a ≡ b
some-inj e = cc

add_instances-IsFresh :
    (s : State) (p : ℕ) (instances : List Instance) (f : Fresh)
    → IsLive s p
    → IsFresh s f
    → IsFresh s (add_instances p instances f)
unfolding add_instances
add_instances-IsFresh s p [] f live fresh = fresh
add_instances-IsFresh s p (i ∷ instances) f live fresh =
    add_instances-IsFresh s p instances (add_instance p i f) live
      (λ j q at. by_key j q (Bool-cases (build_instance_ref i == j)) at)
  where
    lookup-hit :
        (j : InstanceRef)
        → build_instance_ref i == j ≡ true
        → lookup j (insert (build_instance_ref i) p f.instance_to_asg) ≡ some p
    lookup-hit j hit = rw (lookup-insert, hit)

    by_key :
        (j : InstanceRef) (q : ℕ)
        → (build_instance_ref i == j ≡ true) ⊎ (build_instance_ref i == j ≡ false)
        → lookup j (insert (build_instance_ref i) p f.instance_to_asg) ≡ some q
        → IsLive s q
    by_key j q (inl hit) at = subst (IsLive s) (some-inj (sym (lookup-hit j hit) ∙ at)) live
    by_key j q (inr miss) at = fresh j q (rw (lookup-insert, miss) at at)

-- An outcome of building the maps, with its state.
abbrev pub IsBuilt : Outcome (Result Fresh) × State → Type 0
IsBuilt (done (ok f), s) = IsWellFormed s × IsFresh s f
IsBuilt (o, s) = IsWellFormed s

-- A loop that builds them from what is built so far.
abbrev pub Builds : (Fresh → Act (Result Fresh)) → Type 0
Builds m = (f : Fresh) (s : State) → IsWellFormed s → IsFresh s f → IsBuilt (m f s)

module _ (svc : Service) (m : Fresh → Act (Result Fresh)) (builds : Builds m)
    (instances : List Instance) (f : Fresh) (s : State) (fresh : IsFresh s f) where
  with_pointer :
      (asg : Asg) (o : Outcome ℕ) (t : State)
      → IsWellFormed t
      → IsLiveResult o t
      → ((q : ℕ) → IsLive s q → IsLive t q)
      → IsBuilt (continue o (λ p. m (add_group p asg instances f)) t)
  unfolding add_instances
  with_pointer asg (done p) t w live kept =
      builds (add_group p asg instances f) t w
        (add_instances-IsFresh t p instances _ live (λ i q at. kept q (fresh i q at)))
  with_pointer asg panicked t w live kept = w
  with_pointer asg exited t w live kept = w
  with_pointer asg unfinished t w live kept = w

  after_build-IsBuilt :
      (o : Outcome (Result Asg))
      → IsWellFormed s
      → IsBuilt (continue o (λ built. after_build svc instances f built m) s)
  after_build-IsBuilt (done (ok asg)) w =
      let (live, kept) = register-IsLive asg s in
      with_pointer asg (register asg s).0 (register asg s).1 (register-IsWellFormed asg s w) live
        kept
  after_build-IsBuilt (done (err e)) w = w
  after_build-IsBuilt panicked w = w
  after_build-IsBuilt exited w = w
  after_build-IsBuilt unfinished w = w

pub register_groups-IsBuilt :
    (svc : Service) (groups : List Group) → Builds (register_groups svc groups)
unfolding register_groups
register_groups-IsBuilt svc [] f s w fresh = (w, fresh)
register_groups-IsBuilt svc (g ∷ groups) f s w fresh =
    after_build-IsBuilt svc (register_groups svc groups) (register_groups-IsBuilt svc groups)
      g.instances f s fresh (build_asg_from_aws svc g) w
