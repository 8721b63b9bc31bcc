-- ===== src/Cluster/Keeps.antt =====
-- Actions that keep what has been true of the calls made before them.
use capten_autoscaler.Base.{ℕ, ◌∷◌, Bool, true, false, ◌≡◌, refl, if◌then◌else◌}
use capten_autoscaler.Cluster.Api.{
  list_node_pods, get_pod, get_daemon_set, delete_pod, evict_v1, evict_v1beta1, server_resources,
  ctx_done, sleep, Call, list_pods, list_nodes, patch_node, update_node, delete_node, scale_up,
  scale_down, History, Outcome, done, panicked, exited, unfinished, Action, pure, panic, ask,
  ask_out, continue, ◌>>=◌,
}
use capten_autoscaler.Cluster.Laws.{count, Avoids, IsForeign}

-- The invariant holds after the action, however it ends, if it held before.
pub record Keeps {ℓ} {A : Type ℓ} (I : History → Type 0) (m : Action A) : Type 0 where
  pub at : (h : History) → I h → I (m h).1

module _ (I : History → Type 0) where
  -- The call may come at any time.
  abbrev pub Admits : Call → Type 0
  Admits c = (h : History) → I h → I (c ∷ h)

  module _ {ℓ} {A : Type ℓ} where
    pub Keeps-pure : (a : A) → Keeps I (pure a)
    Keeps-pure a = record { at = λ h i. i }

    pub Keeps-panic : Keeps I (panic {A = A})
    Keeps-panic = record { at = λ h i. i }

    pub Keeps-ask : (c : Call) (answer : History → A) → Admits c → Keeps I (ask c answer)
    Keeps-ask c answer k = record { at = k }

    pub Keeps-ask_out :
        (c : Call) (answer : History → Outcome A) → Admits c → Keeps I (ask_out c answer)
    Keeps-ask_out c answer k = record { at = k }

    pub Keeps-if :
        (b : Bool) (m n : Action A) → Keeps I m → Keeps I n → Keeps I (if b then m else n)
    Keeps-if true m n km kn = km
    Keeps-if false m n km kn = kn

  module _ {ℓ κ} {A : Type ℓ} {B : Type κ} where
    pub Keeps-continue :
        (o : Outcome A) (f : A → Action B) (h : History)
        → ((a : A) → o ≡ done a → I (f a h).1)
        → I h
        → I (continue o f h).1
    Keeps-continue (done a) f h k i = k a refl
    Keeps-continue panicked f h k i = i
    Keeps-continue exited f h k i = i
    Keeps-continue unfinished f h k i = i

    pub Keeps-bind :
        (m : Action A) (f : A → Action B)
        → Keeps I m
        → ((a : A) → Keeps I (f a))
        → Keeps I (m >>= f)
    Keeps-bind m f x k = record {
      at = λ h i. Keeps-continue (m h).0 f (m h).1 (λ a e. (k a).at (m h).1 (x.at h i)) (x.at h i);
    }

-- The calls that a drain of a node makes.
abbrev pub is_drain_call : Call → Bool
is_drain_call list_pods = false
is_drain_call list_nodes = false
is_drain_call (patch_node name patch dry) = false
is_drain_call (update_node node dry) = false
is_drain_call (delete_node name) = false
is_drain_call (scale_up n) = false
is_drain_call (scale_down name) = false
is_drain_call _ = true

-- The invariant has nothing to do with the calls of a drain.
abbrev pub Ignores : (History → Type 0) → Type 0
Ignores I = (c : Call) → is_drain_call c ≡ true → Admits I c

-- A number of calls as an invariant.
abbrev pub Counted : (Call → Bool) → ℕ → History → Type 0
Counted p n h = count p h ≡ n

pub Avoids-Keeps {ℓ} :
    {A : Type ℓ} (p : Call → Bool) (m : Action A) → ((n : ℕ) → Keeps (Counted p n) m) → Avoids p m
Avoids-Keeps p m k = record { at = λ h. (k (count p h)).at h refl }

pub Counted-Admits : (p : Call → Bool) (n : ℕ) (c : Call) → p c ≡ false → Admits (Counted p n) c
Counted-Admits p n c quiet h e = rw quiet e

module _ (p : Call → Bool) (foreign : IsForeign p) where
  drain_call-quiet : (c : Call) → is_drain_call c ≡ true → p c ≡ false
  drain_call-quiet (list_node_pods s n) drains = foreign.no_list s n
  drain_call-quiet (get_pod ns n) drains = foreign.no_get ns n
  drain_call-quiet (get_daemon_set ns n) drains = foreign.no_daemon_set ns n
  drain_call-quiet (delete_pod ns n g) drains = foreign.no_delete ns n g
  drain_call-quiet (evict_v1 ns n g) drains = foreign.no_evict_v1 ns n g
  drain_call-quiet (evict_v1beta1 ns n g) drains = foreign.no_evict_v1beta1 ns n g
  drain_call-quiet server_resources drains = foreign.no_resources
  drain_call-quiet ctx_done drains = foreign.no_done
  drain_call-quiet (sleep n) drains = foreign.no_sleep n
  drain_call-quiet _ drains = cc

  pub Counted-Ignores : (n : ℕ) → Ignores (Counted p n)
  Counted-Ignores n c drains = Counted-Admits p n c (drain_call-quiet c drains)
