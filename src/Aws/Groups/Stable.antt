-- ===== src/Aws/Groups/Stable.antt =====
-- The operations on groups, for any invariant that a request and a write to a group keep.
use capten_autoscaler.Base.{ℕ, ℤ, Text, Option, none, some, List, ◌∷◌, ◌≡◌, refl, ◌-ℤ◌, pos, int64}
use capten_autoscaler.Cluster.Api.{Error, Result, ok, err}
use capten_autoscaler.Aws.Types.{InstanceRef, Asg}
use capten_autoscaler.Aws.State.{
  Request, set_desired_capacity, terminate_instance, Service, State, Act, pure, gets, send, ◌>>=◌,
  from_option, set_cell, load, store, modify,
}
use capten_autoscaler.Aws.State.Rules.{
  Does, Extends, Extends-refl, Does-pure, Does-panic, Does-gets, Does-from_option, Does-send,
  Does-bind,
}
use capten_autoscaler.Aws.Groups.{
  after_set, set_asg_size, decrease_asg_size_by_one, shrink_by_one, after_terminate, terminate,
  refuse,
}

-- The invariant looks neither at the log nor at anything of a group but its name.
pub record IsStable (I : State → Type 0) : Type 0 where
  pub on_log : (r : Request) (s : State) → I s → I (record s { log = r ∷ s.log })
  pub on_store :
      (p : ℕ) (a b : Asg) (s : State)
      → I s
      → s.cell p ≡ some a
      → b.name ≡ a.name
      → I (record s { cell = set_cell s.cell p b })

module _ (I : State → Type 0) (stable : IsStable I) (P : Request → Type 0) where
  pub Does-load : (p : ℕ) → Does I P (load p)
  Does-load p =
      Does-bind I P (gets (λ s. s.cell p)) from_option (Does-gets I P _) (Does-from_option I P)

  module _ {ℓ} {A : Type ℓ} (k : Asg → Act A) where
    load-keeps :
        (s : State) (o : Option Asg)
        → I s
        → ((a : Asg) → o ≡ some a → Does I P (k a))
        → I ((from_option o >>= k) s).1
    load-keeps s none i d = i
    load-keeps s (some a) i d = (d a refl).keeps s i

    load-adds :
        (s : State) (o : Option Asg)
        → I s
        → ((a : Asg) → o ≡ some a → Does I P (k a))
        → Extends P s.log ((from_option o >>= k) s).1.log
    load-adds s none i d = Extends-refl P s.log
    load-adds s (some a) i d = (d a refl).adds s i

    -- An action that first reads a group.
    pub Does-load-bind :
        (p : ℕ)
        → ((s : State) → I s → (a : Asg) → s.cell p ≡ some a → Does I P (k a))
        → Does I P (load p >>= k)
    Does-load-bind p d = record {
      keeps = λ s i. load-keeps s (s.cell p) i (d s i);
      adds = λ s i. load-adds s (s.cell p) i (d s i);
    }

  modify-keeps :
      (p : ℕ) (f : Asg → Asg) (s : State) (o : Option Asg)
      → ((a : Asg) → (f a).name ≡ a.name)
      → s.cell p ≡ o
      → I s
      → I ((from_option o >>= λ a. store p (f a)) s).1
  modify-keeps p f s none same e i = i
  modify-keeps p f s (some a) same e i = stable.on_store p a (f a) s i e (same a)

  modify-adds :
      (p : ℕ) (f : Asg → Asg) (s : State) (o : Option Asg)
      → Extends P s.log ((from_option o >>= λ a. store p (f a)) s).1.log
  modify-adds p f s none = Extends-refl P s.log
  modify-adds p f s (some a) = Extends-refl P s.log

  pub Does-modify :
      (p : ℕ) (f : Asg → Asg) → ((a : Asg) → (f a).name ≡ a.name) → Does I P (modify p f)
  unfolding modify
  Does-modify p f same = record {
    keeps = λ s i. modify-keeps p f s (s.cell p) same refl i;
    adds = λ s i. modify-adds p f s (s.cell p);
  }

  pub Does-request : {A : Type 0} (r : Request) (answer : _ → A) → P r → Does I P (send r answer)
  Does-request r answer x = Does-send I P r answer (stable.on_log r) x

  module _ (svc : Service) where
    after_set-Does : (p : ℕ) (size : ℤ) (e : Option Error) → Does I P (after_set svc p size e)
    after_set-Does p size (some e) = Does-pure I P _
    after_set-Does p size none =
        Does-bind I P (modify p (λ a. record a { cur_size = size })) (λ u. pure none)
          (Does-modify p (λ a. record a { cur_size = size }) (λ a. refl)) (λ u. Does-pure I P _)

    -- A new capacity for the group at `p` is allowed, under the group's name.
    abbrev pub MayResize : ℕ → Type 0
    MayResize p =
        (s : State)
        → I s
        → (a : Asg) → s.cell p ≡ some a
        → (size : ℤ) → P (set_desired_capacity a.name size)

    pub set_asg_size-Does : (p : ℕ) (size : ℤ) → MayResize p → Does I P (set_asg_size svc p size)
    unfolding set_asg_size
    set_asg_size-Does p size x = Does-load-bind _ p (λ s i a at.
        Does-bind I P _ (after_set svc p size)
          (Does-request (set_desired_capacity a.name size)
            (λ log. svc.on_set_desired_capacity log a.name size) (x s i a at size))
          (after_set-Does p size))

    pub decrease-Does : (p : ℕ) → MayResize p → Does I P (decrease_asg_size_by_one svc p)
    unfolding decrease_asg_size_by_one
    decrease-Does p x =
        Does-bind I P (load p) _ (Does-load p)
          (λ a. set_asg_size-Does p (int64 (a.cur_size -ℤ pos 1)) x)

    after_terminate-Does :
        (p : ℕ) (answer : Result (Option Text)) (rest : Act (Option Error))
        → Does I P rest
        → Does I P (after_terminate svc p answer rest)
    after_terminate-Does p (err e) rest k = Does-pure I P _
    after_terminate-Does p (ok none) rest k = Does-panic I P
    after_terminate-Does p (ok (some d)) rest k =
        Does-bind I P (modify p (shrink_by_one svc)) (λ u. rest)
          (Does-modify p (shrink_by_one svc) (λ a. refl)) (λ u. k)

    pub terminate-Does :
        (p : ℕ) (i : InstanceRef) (rest : Act (Option Error))
        → P (terminate_instance i.name)
        → Does I P rest
        → Does I P (terminate svc p i rest)
    terminate-Does p i rest x k =
        Does-bind I P _ (λ answer. after_terminate svc p answer rest)
          (Does-request (terminate_instance i.name) (λ log. svc.on_terminate_instance log i.name) x)
          (λ answer. after_terminate-Does p answer rest k)

    pub refuse-Does :
        (p : ℕ) (q : Option ℕ) (instances : List InstanceRef) → Does I P (refuse svc p q instances)
    refuse-Does p none instances = Does-bind I P (load p) _ (Does-load p) (λ a. Does-panic I P)
    refuse-Does p (some q) instances =
        Does-bind I P (load p) _ (Does-load p)
          (λ a. Does-bind I P (load q) _ (Does-load q) (λ b. Does-pure I P _))
