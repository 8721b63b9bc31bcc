-- ===== src/Cluster/Ends.antt =====
-- Actions that run to their end, whatever was called before them.
use capten_autoscaler.Base.{Bool, true, false, if◌then◌else◌}
use capten_autoscaler.Cluster.Api.{
  Call, History, Outcome, Action, pure, ask, ask_out, ◌>>=◌, Returns,
}
use capten_autoscaler.Cluster.Laws.{Returns-continue}

abbrev pub Returned {ℓ} : {A : Type ℓ} → Outcome A → Type 0
Returned o = Returns o (λ a. Unit {0})

pub record Ends {ℓ} {A : Type ℓ} (m : Action A) : Type 0 where
  pub at : (h : History) → Returned (m h).0

module _ {ℓ} {A : Type ℓ} where
  pub Ends-pure : (a : A) → Ends (pure a)
  Ends-pure a = record { at = λ h. tt }

  pub Ends-ask : (c : Call) (answer : History → A) → Ends (ask c answer)
  Ends-ask c answer = record { at = λ h. tt }

  pub Ends-ask_out :
      (c : Call) (answer : History → Outcome A)
      → ((h : History) → Returned (answer h))
      → Ends (ask_out c answer)
  Ends-ask_out c answer k = record { at = k }

  pub Ends-if : (b : Bool) (m n : Action A) → Ends m → Ends n → Ends (if b then m else n)
  Ends-if true m n x y = x
  Ends-if false m n x y = y

pub Ends-bind {ℓ κ} :
    {A : Type ℓ} {B : Type κ} (m : Action A) (f : A → Action B)
    → Ends m
    → ((a : A) → Ends (f a))
    → Ends (m >>= f)
Ends-bind m f x k = record {
  at = λ h. Returns-continue (λ b. Unit {0}) (m h).0 f (m h).1 (x.at h) (λ a u. (k a).at (m h).1);
}
