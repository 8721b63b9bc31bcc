-- ===== src/Base/Maps.antt =====
-- Go's maps as association lists. The order of the entries carries no meaning; where a loop ranges
-- over a map, the order of its visits is an argument of the loop.
use mathlib.Core.Path.{◌≡◌, refl}
use mathlib.Core.Bool.{Bool}
use mathlib.Core.Option.{Option, none, some}
use mathlib.Core.List.{List, [], ◌∷◌}
use native.Mathlib.Omega.{arith}
use capten_autoscaler.Base.Tests.{if◌then◌else◌, Eq, ◌==◌, is_some}

abbrev pub Dict {ℓ κ} : Type ℓ → Type κ → Type (ℓ ⊔ κ)
Dict K V = List (K × V)

module _ {ℓ κ} {K : Type ℓ} {V : Type κ} ⦃e : Eq K⦄ where
  -- `v, ok := m[k]`
  unfoldable pub lookup : K → Dict K V → Option V
  lookup k [] = none
  lookup k ((j, v) ∷ m) = if j == k then some v else lookup k m

  -- `m[k] = v`
  unfoldable pub insert : K → V → Dict K V → Dict K V
  insert k v [] = (k, v) ∷ []
  insert k v ((j, w) ∷ m) = if j == k then (j, v) ∷ m else (j, w) ∷ insert k v m

  -- `delete(m, k)`
  unfoldable pub erase : K → Dict K V → Dict K V
  erase k [] = []
  erase k ((j, w) ∷ m) = let rest = erase k m in if j == k then rest else (j, w) ∷ rest

  abbrev pub contains : K → Dict K V → Bool
  contains k m = is_some (lookup k m)

  pub lookup-insert :
      (key other : K) (value : V) (d : Dict K V)
      → lookup other (insert key value d) ≡ (if key == other then some value else lookup other d)
  unfolding insert lookup
  lookup-insert key other value [] = refl
  lookup-insert key other value ((held, old) ∷ d) = ground (
    arith,
    lookup-insert key other value d,
    e.equals_iff held key,
    e.equals_iff held other,
    e.equals_iff key other,
  )

  pub lookup-erase :
      (k j : K) (m : Dict K V) → lookup j (erase k m) ≡ (if k == j then none else lookup j m)
  unfolding lookup erase
  lookup-erase k j [] = ground arith
  lookup-erase k j ((i, w) ∷ m) =
      ground (arith, e.equals_iff k j, e.equals_iff i k, e.equals_iff i j, lookup-erase k j m)
