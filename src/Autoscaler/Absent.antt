-- ===== src/Autoscaler/Absent.antt =====
-- Kinds of calls that taking nodes away does not make.
use capten_autoscaler.Base.{Text, ℕ, ℤ, Bool, true, false, List, [], ◌∷◌, ◌≡◌, refl, All}
use capten_autoscaler.Cluster.Objects.{Node}
use capten_autoscaler.Cluster.Api.{
  Call, delete_node, patch_node, update_node, scale_up, scale_down, Env,
}
use capten_autoscaler.Cluster.Laws.{Avoids, IsForeign}
use capten_autoscaler.Cluster.Keeps.{Counted, Counted-Admits, Counted-Ignores, Avoids-Keeps}
use capten_autoscaler.Autoscaler.Drained.{Permits, retire-Keeps}
use capten_autoscaler.Drain.Wait.{Poller, IsPollImmediate}
use capten_autoscaler.Autoscaler.{retire}

abbrev pub is_scale_up : Call → Bool
is_scale_up (scale_up n) = true
is_scale_up _ = false

-- A kind of calls that has none of those that taking nodes away makes.
pub record IsAbsent (p : Call → Bool) : Type 0 where
  pub foreign : IsForeign p
  pub no_scale_down : (name : Text) → p (scale_down name) ≡ false
  pub no_delete_node : (name : Text) → p (delete_node name) ≡ false
  pub no_patch : (name patch : Text) (dry : Bool) → p (patch_node name patch dry) ≡ false
  pub no_update : (node : Node) (dry : Bool) → p (update_node node dry) ≡ false

pub scale_up-IsAbsent : IsAbsent is_scale_up
scale_up-IsAbsent = record {
  foreign = record {
    no_list = λ s n. refl;
    no_get = λ s n. refl;
    no_daemon_set = λ s n. refl;
    no_delete = λ s n g. refl;
    no_evict_v1 = λ s n g. refl;
    no_evict_v1beta1 = λ s n g. refl;
    no_resources = refl;
    no_done = refl;
    no_sleep = λ n. refl;
  };
  no_scale_down = λ n. refl;
  no_delete_node = λ n. refl;
  no_patch = λ n q d. refl;
  no_update = λ n d. refl;
}

module _ (env : Env) (poll : ℤ → Poller) (polls : (timeout : ℤ) → IsPollImmediate (poll timeout))
    (p : Call → Bool) (absent : IsAbsent p) where
  -- Any node may stand for a worker here.
  abbrev AnyNode : Node → Type 0
  AnyNode node = Unit {0}

  Counted-Permits : (n : ℕ) → Permits env poll AnyNode (Counted p n)
  Counted-Permits n = record {
    drains = Counted-Ignores p absent.foreign n;
    patches = λ name patch dry.
        Counted-Admits p n (patch_node name patch dry) (absent.no_patch name patch dry);
    updates = λ node dry. Counted-Admits p n (update_node node dry) (absent.no_update node dry);
    deletes_node = λ name. Counted-Admits p n (delete_node name) (absent.no_delete_node name);
    scales_down =
        λ name h ready. Counted-Admits p n (scale_down name) (absent.no_scale_down name) h;
  }

  any_node : (nodes : List Node) → All AnyNode nodes
  any_node [] = tt
  any_node (node ∷ nodes) = (tt, any_node nodes)

  pub retire-Avoids : (val : ℤ) (nodes : List Node) → Avoids p (retire env poll val nodes)
  retire-Avoids val nodes = Avoids-Keeps p (retire env poll val nodes) (λ n.
      retire-Keeps env poll polls AnyNode (Counted p n) (Counted-Permits n) val nodes
        (any_node nodes))
