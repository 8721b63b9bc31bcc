-- ===== src/Aws/Groups/WellFormed.antt =====
-- The invariant of the cache.
use capten_autoscaler.Base.{
  ℕ, ◌≤◌, nat_eq, nat_eq_iff, Text, Option, none, some, ◌≡◌, refl, ◌∙◌, lookup, arith, Bool-cases,
  inl, inr, text_Eq,
}
use capten_autoscaler.Aws.Types.{InstanceRef, ref_Eq, Asg}
use capten_autoscaler.Aws.State.{State, set_cell}
use capten_autoscaler.Aws.Groups.Stable.{IsStable}

-- A registered group stands in the heap under its own name, the group of a known instance stands in
-- the heap, and what is not yet allocated is free.
pub record IsWellFormed (s : State) : Type 0 where
  pub registered :
      (k : Text) (p : ℕ)
      → lookup k s.registered_asgs ≡ some p
      → (a : Asg) × (s.cell p ≡ some a) × (a.name ≡ k)
  pub known :
      (i : InstanceRef) (p : ℕ)
      → lookup i s.instance_to_asg ≡ some p
      → (a : Asg) × (s.cell p ≡ some a)
  pub free : (p : ℕ) → s.next ≤ p → s.cell p ≡ none

-- A write to a group that keeps its name.
set_cell-named :
    (cell : ℕ → Option Asg) (p q : ℕ) (a b c : Asg)
    → cell p ≡ some a
    → b.name ≡ a.name
    → cell q ≡ some c
    → (d : Asg) × (set_cell cell p b q ≡ some d) × (d.name ≡ c.name)
set_cell-named cell p q a b c at_p same at_q = elim (Bool-cases (nat_eq p q)) [
  | inl hit ↦ (b, rw hit, ground (arith, nat_eq_iff p q))
  | inr miss ↦ (c, rw miss at_q, refl)
]

set_cell-free :
    (cell : ℕ → Option Asg) (p q : ℕ) (a b : Asg)
    → cell p ≡ some a
    → cell q ≡ none
    → set_cell cell p b q ≡ none
set_cell-free cell p q a b at_p at_q = ground (arith, nat_eq_iff p q)

pub IsWellFormed-IsStable : IsStable IsWellFormed
IsWellFormed-IsStable = record {
  on_log = λ r s i. record { registered = i.registered; known = i.known; free = i.free };
  on_store = λ p a b s i e same. record {
    registered = λ k q at.
        let (c, here, named) = i.registered k q at in
        let (d, there, kept) = set_cell-named s.cell p q a b c e same here in
        (d, there, kept ∙ named);
    known = λ r q at.
        let (c, here) = i.known r q at in
        let (d, there, kept) = set_cell-named s.cell p q a b c e same here in (d, there);
    free = λ q le. set_cell-free s.cell p q a b e (i.free q le);
  };
}
