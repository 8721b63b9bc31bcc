-- ===== src/Cluster/Laws.antt =====
-- Reasoning about actions: what a returned value satisfies, and which calls an action cannot make.
use capten_autoscaler.Base.{
  ◌++◌, sym, subst, append_assoc, List, ◌↔◌, In, Text, Dict, ap, ℕ, suc, Bool, true, false, [], ◌∷◌,
  ◌≡◌, refl, ◌∙◌, Option, none, some, if◌then◌else◌,
}
use capten_autoscaler.Cluster.Objects.{Pod}
use capten_autoscaler.Cluster.Api.{
  list_node_pods, get_pod, get_daemon_set, delete_pod, evict_v1, evict_v1beta1, server_resources,
  ctx_done, sleep, Grace, Env, Error, Result, ok, err, Call, History, Outcome, done, panicked,
  exited, unfinished, Action, pure, panic, ask, ask_out, continue, ◌>>=◌, on_ok, on_nil, Returns,
}

module _ {ℓ κ} {A : Type ℓ} {B : Type κ} where
  pub Returns-continue :
      {P : A → Type 0} (Q : B → Type 0) (o : Outcome A) (f : A → Action B) (h : History)
      → Returns o P
      → ((a : A) → P a → Returns (f a h).0 Q)
      → Returns (continue o f h).0 Q
  Returns-continue Q (done a) f h p next = next a p
  Returns-continue Q panicked f h p next = elim p [ ]
  Returns-continue Q exited f h p next = elim p [ ]
  Returns-continue Q unfinished f h p next = elim p [ ]

pub Returns-mono {ℓ} :
    {A : Type ℓ} {P Q : A → Type 0} (o : Outcome A)
    → Returns o P
    → ((a : A) → P a → Q a)
    → Returns o Q
Returns-mono (done a) p next = next a p
Returns-mono panicked p next = p
Returns-mono exited p next = p
Returns-mono unfinished p next = p

-- How many of the recorded calls are of a kind.
abbrev pub count : (Call → Bool) → History → ℕ
count p [] = 0
count p (c ∷ h) = let rest = count p h in if p c then suc rest else rest

-- The action makes no call of the kind, whatever the world answers and however it ends.
pub record Avoids {ℓ} {A : Type ℓ} (p : Call → Bool) (m : Action A) : Type 0 where
  pub at : (h : History) → count p (m h).1 ≡ count p h

module _ {ℓ} {A : Type ℓ} (p : Call → Bool) where
  pub Avoids-pure : (a : A) → Avoids p (pure a)
  Avoids-pure a = record { at = λ h. refl }

  pub Avoids-panic : Avoids p (panic {A = A})
  Avoids-panic = record { at = λ h. refl }

  pub Avoids-ask : (c : Call) (answer : History → A) → p c ≡ false → Avoids p (ask c answer)
  Avoids-ask c answer e = record { at = λ h. rw e }

  pub Avoids-ask_out :
      (c : Call) (answer : History → Outcome A) → p c ≡ false → Avoids p (ask_out c answer)
  Avoids-ask_out c answer e = record { at = λ h. rw e }

  pub Avoids-if :
      (b : Bool) (m n : Action A) → Avoids p m → Avoids p n → Avoids p (if b then m else n)
  Avoids-if true m n km kn = km
  Avoids-if false m n km kn = kn

module _ {ℓ κ} {A : Type ℓ} {B : Type κ} (p : Call → Bool) where
  Avoids-continue :
      (o : Outcome A) (f : A → Action B) (h : History)
      → ((a : A) → Avoids p (f a))
      → count p (continue o f h).1 ≡ count p h
  Avoids-continue (done a) f h k = (k a).at h
  Avoids-continue panicked f h k = refl
  Avoids-continue exited f h k = refl
  Avoids-continue unfinished f h k = refl

  pub Avoids-bind :
      (m : Action A) (f : A → Action B)
      → Avoids p m
      → ((a : A) → Avoids p (f a))
      → Avoids p (m >>= f)
  Avoids-bind m f km kf = record { at = λ h. Avoids-continue (m h).0 f (m h).1 kf ∙ km.at h }

  pub Avoids-on_ok :
      (r : Result A) (f : A → Action (Result B)) → ((a : A) → Avoids p (f a)) → Avoids p (on_ok r f)
  Avoids-on_ok (ok a) f k = k a
  Avoids-on_ok (err e) f k = Avoids-pure p (err e)

pub Avoids-on_nil {ℓ} :
    {B : Type ℓ} (p : Call → Bool) (e : Option Error) (m : Action (Result B))
    → Avoids p m
    → Avoids p (on_nil e m)
Avoids-on_nil p none m k = k
Avoids-on_nil p (some e) m k = Avoids-pure p (err e)

pub ruleset avoids_rules =
    (Avoids-pure, Avoids-panic, Avoids-ask, Avoids-if, Avoids-bind, Avoids-on_ok, Avoids-on_nil)

pub done-subst {ℓ} :
    {A : Type ℓ} {o : Outcome A × History} {a b : A} {h : History}
    → o ≡ (done a, h)
    → a ≡ b
    → o ≡ (done b, h)
done-subst e same = rw same at e

module _ {ℓ κ} {A : Type ℓ} {B : Type κ} where
  continue-eq-done :
      (o : Outcome A) (f : A → Action B) (h : History) {b : B} {h' : History}
      → continue o f h ≡ (done b, h')
      → (a : A) × (o ≡ done a) × (f a h ≡ (done b, h'))
  continue-eq-done (done a) f h e = (a, refl, e)
  continue-eq-done panicked f h e = cc
  continue-eq-done exited f h e = cc
  continue-eq-done unfinished f h e = cc

  -- Inversion of a chain that runs to its end.
  pub bind-eq-done :
      (m : Action A) (f : A → Action B) (h : History) {b : B} {h' : History}
      → (m >>= f) h ≡ (done b, h')
      → (a : A) × (h1 : History) × (m h ≡ (done a, h1)) × (f a h1 ≡ (done b, h'))
  bind-eq-done m f h e =
      let (a, first, rest) = continue-eq-done (m h).0 f (m h).1 e in
      (a, (m h).1, ap {B = Outcome A × History} (λ o. (o, (m h).1)) first, rest)

-- What the program relies on of Go and of the libraries that it calls: `NewAggregate` returns nil for
-- no errors only, each goroutine sends one result, and `range` visits each entry of a map once.
pub record IsFaithful (env : Env) : Type 0 where
  pub aggregate_nil : (errs : List Error) → (env.new_aggregate errs ≡ none) ↔ (errs ≡ [])
  pub arrival_all :
      (h : History) (pods : List Pod) (p : Pod) → In p pods ↔ In p (env.arrival h pods)
  pub range_all :
      (m : Dict Text (List Text)) (e : Text × List Text) → In e m ↔ In e (env.range_order m)

-- The second history goes on from the first.
abbrev pub Later : History → History → Type 0
Later h h' = (new : History) × (h' ≡ new ++ h)

pub Later-refl : (h : History) → Later h h
Later-refl h = ([], refl)

pub Later-trans : {a b c : History} → Later a b → Later b c → Later a c
Later-trans {a} (m, e) (n, f) = (n ++ m, f ∙ ap (λ x. n ++ x) e ∙ sym (append_assoc n m a))

pub Later-cons : (c : Call) {a b : History} → Later a b → Later a (c ∷ b)
Later-cons c (n, e) = (c ∷ n, ap (λ x. c ∷ x) e)

-- Calls are recorded and never taken back, however the action ends.
pub record Grows {ℓ} {A : Type ℓ} (m : Action A) : Type 0 where
  pub at : (h : History) → Later h (m h).1

module _ {ℓ} {A : Type ℓ} where
  pub Grows-pure : (a : A) → Grows (pure a)
  Grows-pure a = record { at = Later-refl }

  pub Grows-panic : Grows (panic {A = A})
  Grows-panic = record { at = Later-refl }

  pub Grows-ask : (c : Call) (answer : History → A) → Grows (ask c answer)
  Grows-ask c answer = record { at = λ h. (c ∷ [], refl) }

  pub Grows-if : (b : Bool) (m n : Action A) → Grows m → Grows n → Grows (if b then m else n)
  Grows-if true m n km kn = km
  Grows-if false m n km kn = kn

  pub Grows-done :
      {m : Action A} (h : History) {a : A} {h' : History}
      → Grows m
      → m h ≡ (done a, h')
      → Later h h'
  Grows-done {m} h g e = subst (λ x. Later h x) (ap (λ (x : Outcome A × History). x.1) e) (g.at h)

module _ {ℓ κ} {A : Type ℓ} {B : Type κ} where
  Grows-continue :
      (o : Outcome A) (f : A → Action B) (h : History)
      → ((a : A) → Grows (f a))
      → Later h (continue o f h).1
  Grows-continue (done a) f h k = (k a).at h
  Grows-continue panicked f h k = Later-refl h
  Grows-continue exited f h k = Later-refl h
  Grows-continue unfinished f h k = Later-refl h

  pub Grows-bind :
      (m : Action A) (f : A → Action B) → Grows m → ((a : A) → Grows (f a)) → Grows (m >>= f)
  Grows-bind m f km kf = record {
    at = λ h. Later-trans (km.at h) (Grows-continue (m h).0 f (m h).1 kf);
  }

-- A kind of calls that has none of those that a drain of a node makes.
pub record IsForeign (p : Call → Bool) : Type 0 where
  pub no_list : (s n : Text) → p (list_node_pods s n) ≡ false
  pub no_get : (ns n : Text) → p (get_pod ns n) ≡ false
  pub no_daemon_set : (ns n : Text) → p (get_daemon_set ns n) ≡ false
  pub no_delete : (ns n : Text) (g : Grace) → p (delete_pod ns n g) ≡ false
  pub no_evict_v1 : (ns n : Text) (g : Grace) → p (evict_v1 ns n g) ≡ false
  pub no_evict_v1beta1 : (ns n : Text) (g : Grace) → p (evict_v1beta1 ns n g) ≡ false
  pub no_resources : p server_resources ≡ false
  pub no_done : p ctx_done ≡ false
  pub no_sleep : (n : ℕ) → p (sleep n) ≡ false
