-- ===== src/Aws/Groups/Register.antt =====
-- `register`: the shortcut by `reflect.DeepEqual`, the fixed sizes of explicit groups, the invariant.
use capten_autoscaler.Base.{
  ℕ, suc, nat_eq, nat_eq_iff, Text, Bool, true, false, Option, none, some, lookup, lookup-insert,
  insert, ◌≡◌, ◌⊎◌, refl, sym, ap, fun_ext, ◌∙◌, inl, inr, Bool-cases, arith, if◌then◌else◌, ◌==◌,
  text_Eq, text_eq_iff,
}
use capten_autoscaler.Cluster.Api.{Outcome, done}
use capten_autoscaler.Aws.Types.{ref_Eq, Asg}
use capten_autoscaler.Aws.DeepEqual.{deep_equal, deep_equal_sound}
use capten_autoscaler.Aws.State.{
  State, Act, pure, gets, ◌>>=◌, ◌>>◌, from_option, set_cell, load, modify, allocate,
}
use capten_autoscaler.Aws.Groups.{
  holds, update_group, set_registered, is_explicit, update_existing, register_at, register,
}
use capten_autoscaler.Aws.Groups.WellFormed.{IsWellFormed, IsWellFormed-IsStable}
use capten_autoscaler.Aws.State.Rules.{AnyRequest, Does, Does-pure, Does-gets, Does-bind}
use capten_autoscaler.Aws.Groups.Stable.{Does-load, Does-modify}

-- `register` without the shortcut.
abbrev pub register_plainly_at : Asg → Option ℕ → Act ℕ
register_plainly_at asg none = allocate asg >>= λ p. set_registered asg.name p >> pure p
register_plainly_at asg (some p) = load p >>= λ existing. update_existing asg p

abbrev pub register_plainly : Asg → Act ℕ
register_plainly asg = gets (λ s. lookup asg.name s.registered_asgs) >>= register_plainly_at asg

update_group_self : (explicit : Bool) (a : Asg) → update_group explicit a a ≡ a
unfolding update_group
update_group_self true a = refl
update_group_self false a = refl

set_cell_self :
    (cell : ℕ → Option Asg) (p : ℕ) (a : Asg) → cell p ≡ some a → set_cell cell p a ≡ cell
set_cell_self cell p a e = fun_ext λ q. ground (arith, nat_eq_iff p q)

update_existing_self :
    (p : ℕ) (a : Asg) (s : State) → s.cell p ≡ some a → update_existing a p s ≡ (done p, s)
unfolding modify
update_existing_self p a s e =
    rw (e, update_group_self (holds (lookup a.name s.explicitly_configured)) a)
      (ap (λ c. (done p, record s { cell = c })) (set_cell_self s.cell p a e))

shortcut :
    (asg : Asg) (p : ℕ) (s : State) (o : Option Asg)
    → s.cell p ≡ o
    → (from_option o >>= λ existing.
          if deep_equal existing asg then pure p else update_existing asg p)
        s
      ≡ (from_option o >>= λ existing. update_existing asg p) s
shortcut asg p s none e = refl
shortcut asg p s (some a) e = elim (Bool-cases (deep_equal a asg)) [
  | inl equal ↦
      rw equal (sym (update_existing_self p asg s (e ∙ ap some (deep_equal_sound a asg equal))))
  | inr other ↦ rw other
]

-- The shortcut of `register` for a group that is deeply equal to the registered one changes nothing:
-- without it the outcome and the state are the same, in every state.
pub register-register_plainly : (asg : Asg) (s : State) → register asg s ≡ register_plainly asg s
unfolding register
register-register_plainly asg s = by_entry (lookup asg.name s.registered_asgs)
  where
    by_entry : (o : Option ℕ) → register_at asg o s ≡ register_plainly_at asg o s
    by_entry none = refl
    by_entry (some p) = shortcut asg p s (s.cell p) refl

-- The sizes of an explicitly configured group are not written over by those of the service: if it is
-- registered, it keeps its least and its greatest size, and the current size becomes the new one.
pub register-explicit :
    (asg old : Asg) (p : ℕ) (s : State)
    → lookup asg.name s.registered_asgs ≡ some p
    → s.cell p ≡ some old
    → lookup asg.name s.explicitly_configured ≡ some true
    → (a : Asg) × ((register asg s).1.cell p ≡ some a)
      × (a.min_size ≡ old.min_size)
      × (a.max_size ≡ old.max_size)
      × (a.cur_size ≡ asg.cur_size)
unfolding update_group modify
register-explicit asg old p s at here explicit = (
  update_group true asg old,
  rw (register-register_plainly asg s, at, here, explicit) (ground (arith, nat_eq_iff p p)),
  refl,
  refl,
  refl,
)

update_existing-Does : (asg : Asg) (p : ℕ) → Does IsWellFormed AnyRequest (update_existing asg p)
unfolding update_group
update_existing-Does asg p =
    Does-bind IsWellFormed AnyRequest (is_explicit asg.name) _ (Does-gets IsWellFormed AnyRequest _)
      (λ b.
        Does-bind IsWellFormed AnyRequest (modify p (update_group b asg)) (λ u. pure p)
          (Does-modify IsWellFormed IsWellFormed-IsStable AnyRequest p (update_group b asg)
            (λ a. refl))
          (λ u. Does-pure IsWellFormed AnyRequest p))

-- A new group goes to a free place of the heap, and is registered under its name.
allocated :
    (asg : Asg) (s : State)
    → IsWellFormed s
    → IsWellFormed (record s {
      next = suc s.next;
      cell = set_cell s.cell s.next asg;
      registered_asgs = insert asg.name s.next s.registered_asgs;
    })
allocated asg s w = record {
  registered = λ k p at. by_name k p (Bool-cases (asg.name == k)) at;
  known = λ i p at. let (a, here) = w.known i p at in (a, stays p a here);
  free = λ p le. ground (arith, w.free p (omega arith), nat_eq_iff s.next p);
}
  where
    stays : (p : ℕ) (a : Asg) → s.cell p ≡ some a → set_cell s.cell s.next asg p ≡ some a
    stays p a here = ground (arith, w.free s.next (omega arith), nat_eq_iff s.next p)

    by_name :
        (k : Text) (p : ℕ)
        → (asg.name == k ≡ true) ⊎ (asg.name == k ≡ false)
        → lookup k (insert asg.name s.next s.registered_asgs) ≡ some p
        → (a : Asg) × (set_cell s.cell s.next asg p ≡ some a) × (a.name ≡ k)
    by_name k p (inl hit) at = (
      asg,
      ground (arith, rw (lookup-insert, hit) at at, nat_eq_iff s.next p),
      (text_eq_iff asg.name k).0 hit,
    )
    by_name k p (inr miss) at =
        let (a, here, named) = w.registered k p (rw (lookup-insert, miss) at at) in
        (a, stays p a here, named)

register_at-IsWellFormed :
    (asg : Asg) (s : State) (o : Option ℕ)
    → IsWellFormed s
    → IsWellFormed (register_plainly_at asg o s).1
register_at-IsWellFormed asg s none w = allocated asg s w
register_at-IsWellFormed asg s (some p) w =
    (Does-bind IsWellFormed AnyRequest (load p) (λ existing. update_existing asg p)
        (Does-load IsWellFormed IsWellFormed-IsStable AnyRequest p)
        (λ a. update_existing-Does asg p)).keeps
      s w

-- Registering a group keeps the invariant of the cache.
pub register-IsWellFormed :
    (asg : Asg) (s : State) → IsWellFormed s → IsWellFormed (register asg s).1
register-IsWellFormed asg s w =
    rw (register-register_plainly asg s)
      (register_at-IsWellFormed asg s (lookup asg.name s.registered_asgs) w)

-- The pointer is one to a group.
abbrev pub IsLive : State → ℕ → Type 0
IsLive s p = (a : Asg) × (s.cell p ≡ some a)

abbrev pub IsLiveResult : Outcome ℕ → State → Type 0
IsLiveResult (done p) s = IsLive s p
IsLiveResult _ s = Unit

pub set_cell-IsLive :
    (s : State) (p q : ℕ) (a : Asg) → IsLive s q → (b : Asg) × (set_cell s.cell p a q ≡ some b)
set_cell-IsLive s p q a (b, here) = elim (Bool-cases (nat_eq p q)) [
  | inl hit ↦ (a, rw hit)
  | inr miss ↦ (b, rw miss here)
]

set_cell-hit : (s : State) (p : ℕ) (a : Asg) → set_cell s.cell p a p ≡ some a
set_cell-hit s p a = ground (arith, nat_eq_iff p p)

register_at-IsLive :
    (asg : Asg) (s : State) (o : Option ℕ)
    → IsLiveResult (register_plainly_at asg o s).0 (register_plainly_at asg o s).1
      × ((q : ℕ) → IsLive s q → IsLive (register_plainly_at asg o s).1 q)
unfolding modify
register_at-IsLive asg s none =
    ((asg, set_cell-hit s s.next asg), λ q live. set_cell-IsLive s s.next q asg live)
register_at-IsLive asg s (some p) = by_cell (s.cell p) refl
  where
    by_cell :
        (o : Option Asg)
        → s.cell p ≡ o
        → IsLiveResult
            ((from_option o >>= λ a. update_existing asg p) s).0
            ((from_option o >>= λ a. update_existing asg p) s).1
          × ((q : ℕ) → IsLive s q → IsLive ((from_option o >>= λ a. update_existing asg p) s).1 q)
    by_cell none e = (tt, λ q live. live)
    by_cell (some a) e = rw e ((_, set_cell-hit s p _), λ q live. set_cell-IsLive s p q _ live)

-- `register` returns a pointer to a group, and leaves every pointer to a group one.
pub register-IsLive :
    (asg : Asg) (s : State)
    → IsLiveResult (register asg s).0 (register asg s).1
      × ((q : ℕ) → IsLive s q → IsLive (register asg s).1 q)
register-IsLive asg s =
    rw (register-register_plainly asg s)
      (register_at-IsLive asg s (lookup asg.name s.registered_asgs))
