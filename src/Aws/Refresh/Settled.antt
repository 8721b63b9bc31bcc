-- ===== src/Aws/Refresh/Settled.antt =====
-- The end of a regeneration keeps the invariant of the cache.
use capten_autoscaler.Base.{
  ℕ, Text, Bool, Option, some, [], ◌∷◌, Dict, lookup, lookup-erase, erase, is_some, ◌≡◌, refl, inl,
  inr, Bool-cases, if◌then◌else◌, ◌==◌, text_Eq,
}
use capten_autoscaler.Cluster.Api.{
  Error, Result, ok, err, Outcome, done, panicked, exited, unfinished,
}
use capten_autoscaler.Aws.Types.{ref_Eq, Asg}
use capten_autoscaler.Aws.State.Ends.{none-some}
use capten_autoscaler.Aws.State.{Service, State, Act, pure, gets, continue, ◌>>◌, load}
use capten_autoscaler.Aws.State.Rules.{
  AnyRequest, Does, Extends-refl, Does-read, Does-pure, Does-gets, Does-if, Does-bind,
}
use capten_autoscaler.Aws.Groups.{unregister, unregister_name}
use capten_autoscaler.Aws.Groups.Stable.{IsStable, Does-load}
use capten_autoscaler.Aws.Groups.WellFormed.{IsWellFormed, IsWellFormed-IsStable}
use capten_autoscaler.Aws.Groups.Register.{set_cell-IsLive}
use capten_autoscaler.Aws.Refresh.{
  get_by_key, get_instance_types_for_asgs, Fresh, unregister_if_gone, unregister_gone, populate,
  drop_expired, store_types, names_to_query, set_maps, settle_maps,
}
use capten_autoscaler.Aws.Refresh.Built.{IsFresh}

-- Deleting the entry of a registered group.
unregister_name-IsWellFormed :
    (name : Text) (s : State) → IsWellFormed s → IsWellFormed (unregister_name name s).1
unregister_name-IsWellFormed name s w =
    elim (Bool-cases (is_some (lookup name s.registered_asgs))) [
      | inr unknown ↦ rw unknown w
      | inl known ↦ rw known (record {
        registered = λ k p at. w.registered k p (in_erased k p at);
        known = w.known;
        free = w.free;
      })
    ]
  where
    in_erased :
        (k : Text) (p : ℕ)
        → lookup k (erase name s.registered_asgs) ≡ some p
        → lookup k s.registered_asgs ≡ some p
    in_erased k p at = elim (Bool-cases (name == k)) [
      | inl hit ↦ absurd (none-some (rw (lookup-erase, hit) at at))
      | inr miss ↦ rw (lookup-erase, miss) at at
    ]

pub unregister_name-cell : (name : Text) (s : State) → (unregister_name name s).1.cell ≡ s.cell
unregister_name-cell name s = elim (Bool-cases (is_some (lookup name s.registered_asgs))) [
  | inl known ↦ rw known
  | inr unknown ↦ rw unknown
]

unregister_name-log : (name : Text) (s : State) → (unregister_name name s).1.log ≡ s.log
unregister_name-log name s = elim (Bool-cases (is_some (lookup name s.registered_asgs))) [
  | inl known ↦ rw known
  | inr unknown ↦ rw unknown
]

-- The invariant, with new maps whose groups stand in the heap.
abbrev pub WithFresh : Fresh → State → Type 0
WithFresh f s = IsWellFormed s × IsFresh s f

WithFresh-IsStable : (f : Fresh) → IsStable (WithFresh f)
WithFresh-IsStable f = record {
  on_log = λ r s w. (IsWellFormed-IsStable.on_log r s w.0, w.1);
  on_store = λ p a b s w e same. (
    IsWellFormed-IsStable.on_store p a b s w.0 e same,
    λ i q at. set_cell-IsLive s p q b (w.1 i q at),
  );
}

-- A change that the invariant does not look at.
same_groups :
    (f : Fresh) (s t : State)
    → WithFresh f s
    → t.next ≡ s.next
    → t.cell ≡ s.cell
    → t.registered_asgs ≡ s.registered_asgs
    → t.instance_to_asg ≡ s.instance_to_asg
    → WithFresh f t
same_groups f s t (w, fresh) on_next on_cell on_names on_known = (
  record {
    registered = λ k p at. rw on_cell (w.registered k p (rw on_names at at));
    known = λ i p at. rw on_cell (w.known i p (rw on_known at at));
    free = λ p le. rw on_cell (w.free p (rw on_next at le));
  },
  λ i p at. rw on_cell (fresh i p at),
)

module _ (svc : Service) (f : Fresh) where
  load_it : (p : ℕ) → Does (WithFresh f) AnyRequest (load p)
  load_it p = Does-load (WithFresh f) (WithFresh-IsStable f) AnyRequest p

  unregister_name-Does : (name : Text) → Does (WithFresh f) AnyRequest (unregister_name name)
  unregister_name-Does name = record {
    keeps = λ s w. (
      unregister_name-IsWellFormed name s w.0,
      λ i p at. rw (unregister_name-cell name s) (w.1 i p at),
    );
    adds = λ s w. ([], unregister_name-log name s, tt);
  }

  unregister_if_gone-Does :
      (exists : Dict Text Bool) (p : ℕ) (a : Asg) (s : State)
      → Does (WithFresh f) AnyRequest (unregister_if_gone svc exists p a s)
  unfolding unregister
  unregister_if_gone-Does exists p a s =
      Does-if (WithFresh f) AnyRequest _ (unregister p) (pure tt)
        (Does-bind (WithFresh f) AnyRequest (load p) (λ b. unregister_name b.name) (load_it p)
          (λ b. unregister_name-Does b.name))
        (Does-pure (WithFresh f) AnyRequest tt)

  pub unregister_gone-Does :
      (exists : Dict Text Bool) (entries : Dict Text ℕ)
      → Does (WithFresh f) AnyRequest (unregister_gone svc exists entries)
  unfolding unregister_gone
  unregister_gone-Does exists [] = Does-pure (WithFresh f) AnyRequest tt
  unregister_gone-Does exists ((k, p) ∷ entries) =
      Does-bind (WithFresh f) AnyRequest (load p) _ (load_it p) (λ a.
        Does-read (WithFresh f) AnyRequest (λ s. s) _
          (λ s w.
            Does-bind (WithFresh f) AnyRequest (unregister_if_gone svc exists p a s)
              (λ u. unregister_gone svc exists entries) (unregister_if_gone-Does exists p a s)
              (λ u. unregister_gone-Does exists entries)))

  names_to_query-Does :
      (entries : Dict Text ℕ) → Does (WithFresh f) AnyRequest (names_to_query svc entries)
  unfolding names_to_query
  names_to_query-Does [] = Does-pure (WithFresh f) AnyRequest []
  names_to_query-Does ((k, p) ∷ entries) =
      Does-bind (WithFresh f) AnyRequest (load p) _ (load_it p) (λ a.
        Does-bind (WithFresh f) AnyRequest (gets (get_by_key svc a.name)) _
          (Does-gets (WithFresh f) AnyRequest _)
          (λ found.
            Does-bind (WithFresh f) AnyRequest (names_to_query svc entries)
              (λ names. pure (if is_some found then names else a.name ∷ names))
              (names_to_query-Does entries)
              (λ names.
                Does-pure (WithFresh f) AnyRequest
                  (if is_some found then names else a.name ∷ names))))

  store_types-Does :
      (found : Result (Dict Text Text))
      → Does (WithFresh f) AnyRequest (λ s. store_types svc found (drop_expired svc s))
  store_types-Does (ok found) = record {
    keeps = λ s w. same_groups f s _ w refl refl refl refl;
    adds = λ s w. Extends-refl AnyRequest s.log;
  }
  store_types-Does (err e) = record {
    keeps = λ s w. same_groups f s _ w refl refl refl refl;
    adds = λ s w. Extends-refl AnyRequest s.log;
  }

  populate-Does : Does (WithFresh f) AnyRequest (populate svc)
  unfolding populate
  populate-Does =
      Does-read (WithFresh f) AnyRequest (λ s. s.registered_asgs) _
        (λ s w.
          Does-bind (WithFresh f) AnyRequest
            (names_to_query svc (svc.range_groups s.registered_asgs)) _
            (names_to_query-Does (svc.range_groups s.registered_asgs))
            (λ names. store_types-Does (get_instance_types_for_asgs names)))

  store_maps : (s : State) → WithFresh f s → IsWellFormed (set_maps svc f s).1
  store_maps s (w, fresh) = record { registered = w.registered; known = fresh; free = w.free }

  pub settle_maps-IsWellFormed :
      (s : State) → WithFresh f s → IsWellFormed (settle_maps svc (ok f) s).1
  settle_maps-IsWellFormed s w =
      finish (λ u. populate svc >> set_maps svc f) (λ u t v. after_populate t v) _ _
        ((unregister_gone-Does f.exists (svc.range_groups s.registered_asgs)).keeps s w)
    where
      finish :
          {A : Type 0} (k : A → Act (Option Error))
          → ((a : A) (t : State) → WithFresh f t → IsWellFormed (k a t).1)
          → (o : Outcome A) (t : State) → WithFresh f t
          → IsWellFormed (continue o k t).1
      finish k h (done a) t v = h a t v
      finish k h panicked t v = v.0
      finish k h exited t v = v.0
      finish k h unfinished t v = v.0

      after_populate :
          (t : State) → WithFresh f t → IsWellFormed ((populate svc >> set_maps svc f) t).1
      after_populate t v =
          finish (λ e. set_maps svc f) (λ e. store_maps) _ _ (populate-Does.keeps t v)
