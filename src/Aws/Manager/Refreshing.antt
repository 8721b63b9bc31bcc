-- ===== src/Aws/Manager/Refreshing.antt =====
-- When a refresh regenerates the cache.
use capten_autoscaler.Base.{
  ℤ, ◌+ℤ◌, ◌-ℤ◌, ◌≤ℤ◌, ltb_ℤ, +ℤ_parts, -ℤ_parts, eq_of_parts, sym, subst, false, Option, none,
  some, List, ◌∷◌, ◌≡◌, arith,
}
use capten_autoscaler.Cluster.Api.{Error, Outcome, done, panicked, exited, unfinished}
use capten_autoscaler.Aws.Types.{InstanceRef}
use capten_autoscaler.Aws.State.{read_clock, Service, State, continue}
use capten_autoscaler.Aws.Groups.{delete_instances}
use capten_autoscaler.Aws.State.Ends.{some-none, panicked_done, exited_done, unfinished_done}
use capten_autoscaler.Aws.Manager.{
  refresh_interval, force_refresh, refresh, after_deletion, manager_delete_instances,
}

-- The state after a look at the clock.
abbrev pub looked : State → State
looked s = record s { log = read_clock ∷ s.log }

refresh-due :
    (svc : Service) (s : State)
    → (s.last_refresh +ℤ refresh_interval) ≤ℤ svc.on_read_clock s.log
    → refresh svc s ≡ force_refresh svc (looked s)
unfolding refresh
refresh-due svc s due =
    rw (not_before (svc.on_read_clock s.log) (s.last_refresh +ℤ refresh_interval) due)
  where
    not_before : (a b : ℤ) → b ≤ℤ a → ltb_ℤ a b ≡ false
    not_before a b le = ground arith

back_again : (now d : ℤ) → (now -ℤ d) +ℤ d ≡ now
back_again now d =
    eq_of_parts ((now -ℤ d) +ℤ d) now (omega (arith, +ℤ_parts (now -ℤ d) d, -ℤ_parts now d))

module _ (svc : Service) where
  after_deletion-due :
      (o : Outcome (Option Error)) (s : State)
      → (continue o (after_deletion svc) s).0 ≡ done none
      → svc.on_read_clock s.log ≤ℤ svc.on_read_clock (continue o (after_deletion svc) s).1.log
      → refresh svc (continue o (after_deletion svc) s).1
        ≡ force_refresh svc (looked (continue o (after_deletion svc) s).1)
  after_deletion-due (done none) s e later =
      refresh-due svc (continue (done none) (after_deletion svc) s).1 (
        subst (λ x. x ≤ℤ svc.on_read_clock (read_clock ∷ s.log))
          (sym (back_again (svc.on_read_clock s.log) refresh_interval)) later)
  after_deletion-due (done (some x)) s e later = absurd (some-none e)
  after_deletion-due panicked s e later = absurd (panicked_done e)
  after_deletion-due exited s e later = absurd (exited_done e)
  after_deletion-due unfinished s e later = absurd (unfinished_done e)

  -- After a deletion that returns no error, a refresh is a regeneration, unless its clock shows an
  -- earlier time than the deletion's did.
  pub manager_delete_instances-refresh :
      (instances : List InstanceRef) (s : State)
      → (manager_delete_instances svc instances s).0 ≡ done none
      → svc.on_read_clock (delete_instances svc instances s).1.log
        ≤ℤ svc.on_read_clock (manager_delete_instances svc instances s).1.log
      → refresh svc (manager_delete_instances svc instances s).1
        ≡ force_refresh svc (looked (manager_delete_instances svc instances s).1)
  unfolding manager_delete_instances
  manager_delete_instances-refresh instances s e later =
      after_deletion-due (delete_instances svc instances s).0 (delete_instances svc instances s).1 e
        later
