-- ===== src/Aws/State/Rules.antt =====
-- What an action on the state keeps, and which requests it adds.
use capten_autoscaler.Base.{
  ap, ◌∙◌, sym, ◌++◌, append_assoc, Bool, true, false, Option, none, some, [], ◌∷◌, ◌≡◌, refl, All,
  All-append, if◌then◌else◌,
}
use capten_autoscaler.Cluster.Api.{Outcome, done, panicked, exited, unfinished}
use capten_autoscaler.Aws.State.{
  Request, Log, State, Act, pure, panic, gets, send, continue, ◌>>=◌, lift, from_option,
}

-- The log goes on from `before` with requests that all have the property.
abbrev pub Extends : (Request → Type 0) → Log → Log → Type 0
Extends P before after = (new : Log) × (after ≡ new ++ before) × All P new

-- From a state with `I` the action comes to a state with `I`, however it ends, and each request
-- that it adds has `P`.
pub record Does {ℓ} {A : Type ℓ} (I : State → Type 0) (P : Request → Type 0) (m : Act A)
    : Type 0 where
  pub keeps : (s : State) → I s → I (m s).1
  pub adds : (s : State) → I s → Extends P s.log (m s).1.log

abbrev pub AnyRequest : Request → Type 0
AnyRequest r = Unit

pub Extends-refl : (P : Request → Type 0) (l : Log) → Extends P l l
Extends-refl P l = ([], refl, tt)

pub Extends-trans :
    (P : Request → Type 0) (a b c : Log) → Extends P a b → Extends P b c → Extends P a c
Extends-trans P a b c (m, e, x) (n, f, y) =
    (n ++ m, f ∙ ap (λ l. n ++ l) e ∙ sym (append_assoc n m a), All-append P n m y x)

module _ (I : State → Type 0) (P : Request → Type 0) where
  module _ {ℓ} {A : Type ℓ} where
    pub Does-pure : (a : A) → Does I P (pure a)
    Does-pure a = record { keeps = λ s i. i; adds = λ s i. Extends-refl P s.log }

    pub Does-lift : (o : Outcome A) → Does I P (lift o)
    Does-lift o = record { keeps = λ s i. i; adds = λ s i. Extends-refl P s.log }

    pub Does-gets : (f : State → A) → Does I P (gets f)
    Does-gets f = record { keeps = λ s i. i; adds = λ s i. Extends-refl P s.log }

    pub Does-panic : Does I P (panic {A = A})
    Does-panic = record { keeps = λ s i. i; adds = λ s i. Extends-refl P s.log }

    pub Does-from_option : (o : Option A) → Does I P (from_option o)
    Does-from_option none = Does-panic
    Does-from_option (some a) = Does-pure a

    pub Does-if : (b : Bool) (m n : Act A) → Does I P m → Does I P n → Does I P (if b then m else n)
    Does-if true m n x y = x
    Does-if false m n x y = y

    -- An invariant that does not look at the log.
    pub Does-send :
        (r : Request) (answer : Log → A)
        → ((s : State) → I s → I (record s { log = r ∷ s.log }))
        → P r
        → Does I P (send r answer)
    Does-send r answer k p = record { keeps = k; adds = λ s i. (r ∷ [], refl, (p, tt)) }

  module _ {ℓ κ} {A : Type ℓ} {B : Type κ} where
    continue-keeps :
        (o : Outcome A) (f : A → Act B) (s : State)
        → ((a : A) → Does I P (f a))
        → I s
        → I (continue o f s).1
    continue-keeps (done a) f s k i = (k a).keeps s i
    continue-keeps panicked f s k i = i
    continue-keeps exited f s k i = i
    continue-keeps unfinished f s k i = i

    continue-adds :
        (o : Outcome A) (f : A → Act B) (s : State)
        → ((a : A) → Does I P (f a))
        → I s
        → Extends P s.log (continue o f s).1.log
    continue-adds (done a) f s k i = (k a).adds s i
    continue-adds panicked f s k i = Extends-refl P s.log
    continue-adds exited f s k i = Extends-refl P s.log
    continue-adds unfinished f s k i = Extends-refl P s.log

    pub Does-bind :
        (m : Act A) (f : A → Act B) → Does I P m → ((a : A) → Does I P (f a)) → Does I P (m >>= f)
    Does-bind m f x k = record {
      keeps = λ s i. continue-keeps (m s).0 f (m s).1 k (x.keeps s i);
      adds = λ s i.
          Extends-trans P s.log (m s).1.log (continue (m s).0 f (m s).1).1.log (x.adds s i)
            (continue-adds (m s).0 f (m s).1 k (x.keeps s i));
    }

    -- An action that first reads the state.
    pub Does-read :
        (f : State → A) (k : A → Act B)
        → ((s : State) → I s → Does I P (k (f s)))
        → Does I P (gets f >>= k)
    Does-read f k d = record { keeps = λ s i. (d s i).keeps s i; adds = λ s i. (d s i).adds s i }
