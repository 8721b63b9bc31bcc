-- ===== src/Sample.antt =====
-- A small world for the tests: a worker with a pod of a web server, an API server that accepts what
-- it is asked, and an eviction that is over at the first look.
use capten_autoscaler.Base.{
  ◌*◌, leb, ℕ, zero, suc, ℤ, pos, text, false, Option, none, some, List, [], ◌∷◌, ◌≡◌, ◌↔◌, refl,
  subst, ◌+◌, pos_part,
}
use capten_autoscaler.Cluster.Objects.{Pod, Node, NodeCondition, condition_true}
use capten_autoscaler.Cluster.Api.{
  Error, api, not_found, failure, ok, ApiResource, History, Env, PodAnswer, Outcome, done, Action,
  pure, ◌>>=◌,
}
use capten_autoscaler.Cluster.Laws.{bind-eq-done, IsFaithful}
use capten_autoscaler.Cluster.Keeps.{Keeps, Keeps-pure, Keeps-bind}
use capten_autoscaler.Drain.Wait.{
  Poll, finished, pending, failed, Condition, Poller, Polls, stop, fail, expire, again,
  IsPollImmediate,
}
use capten_autoscaler.Drain.Evict.{eviction_kind, eviction_subresource}
use capten_autoscaler.Drain.Evict.Loop.{slept}
use capten_autoscaler.Autoscaler.{Float64, NodeInfo}

abbrev pub web_pod : Pod
web_pod = record {
  kind = text "Pod";
  api_version = text "v1";
  namespace = text "shop";
  name = text "web-0";
  uid = text "1";
  node_name = text "worker-1";
  scheduler_name = text "default-scheduler";
  phase = text "Running";
  deletion_timestamp = none;
  annotations = [];
  controller = some (record { kind = text "ReplicaSet"; name = text "web" });
  volumes = [];
  containers = record { cpu = pos 500000000; memory = pos 1000 } ∷ [];
  scheduled_condition = none;
}

abbrev pub ready_condition : NodeCondition
ready_condition = record {
  type = text "Ready";
  status = condition_true;
  reason = text "KubeletReady";
  last_transition_time = pos 7;
}

abbrev pub worker : Node
worker = record {
  name = text "worker-1";
  provider_id = text "azure:///worker-1";
  creation_timestamp = pos 5;
  labels = [];
  annotations = [];
  unschedulable = false;
  conditions = ready_condition ∷ [];
  taints = [];
}

abbrev pub aggregate : List Error → Option Error
aggregate [] = none
aggregate (e ∷ es) = some e

abbrev pub missing : PodAnswer
missing = record { found = none; error = some (api not_found false (text "not found")) }

abbrev pub eviction_resource : ApiResource
eviction_resource = record {
  name = eviction_subresource;
  kind = eviction_kind;
  group = text "policy";
  version = text "v1";
}

abbrev pub world : Env
world = record {
  on_list_pods = λ h. ok (web_pod ∷ []);
  on_list_nodes = λ h. ok (worker ∷ []);
  on_list_node_pods = λ h selector node_name. ok (web_pod ∷ []);
  on_get_pod = λ h namespace name. missing;
  on_get_daemon_set = λ h namespace name. none;
  on_delete_pod = λ h namespace name grace. none;
  on_evict_v1 = λ h namespace name grace. none;
  on_evict_v1beta1 = λ h namespace name grace. none;
  on_server_resources = λ h. ok (eviction_resource ∷ []);
  on_patch_node = λ h name patch dry_run. none;
  on_update_node = λ h node dry_run. none;
  on_delete_node = λ h name. none;
  on_scale_up = λ h count. done none;
  on_scale_down = λ h name. done none;
  on_ctx_done = λ h. leb 10000000000 (slept h * 1000000000);
  now = λ h. pos 1000;
  parse_selector = λ s. ok s;
  marshal_node = λ node. ok (text "{}");
  merge_patch = λ old_data new_data node. ok (text "{spec}");
  new_aggregate = aggregate;
  arrival = λ h pods. pods;
  range_order = λ m. m;
}

pub world-IsFaithful : IsFaithful world
world-IsFaithful = record {
  aggregate_nil = quiet;
  arrival_all = λ h pods p. ((λ m. m), (λ m. m));
  range_all = λ m e. ((λ i. i), (λ i. i));
}
  where
    quiet : (errs : List Error) → (aggregate errs ≡ none) ↔ (errs ≡ [])
    quiet [] = ((λ e. refl), (λ e. refl))
    quiet (x ∷ xs) = ((λ e. cc), (λ e. cc))

-- A poll that tries the condition a number of times.
abbrev pub conclude_try :
    Poll → List Pod → Action (List Pod × Option Error) → Action (List Pod × Option Error)
conclude_try finished qs next = pure (qs, none)
conclude_try (failed e) qs next = pure (qs, some e)
conclude_try pending qs next = next

abbrev pub time_over : Error
time_over = failure (text "timed out waiting for the condition")

abbrev pub tries : ℕ → Poller
tries zero c ps = c ps >>= λ r. conclude_try r.1 r.0 (pure (r.0, some time_over))
tries (suc n) c ps = c ps >>= λ r. conclude_try r.1 r.0 (tries n c r.0)

abbrev pub poll_twice : ℤ → Poller
poll_twice timeout = tries 1

abbrev Ended : Type 0
Ended = Outcome (List Pod × Option Error) × History

parts :
    (qs rs : List Pod) (e e' : Option Error) (h h' : History)
    → ◌≡◌ {A = Ended} (done (qs, e), h) (done (rs, e'), h')
    → (qs ≡ rs) × (e ≡ e') × (h ≡ h')
parts qs rs e e' h h' eq = (cc, cc, cc)

Polls-ends :
    {c : Condition} {ps : List Pod} {h : History} (qs : List Pod) (e : Option Error) (h1 : History)
    (rs : List Pod) (e' : Option Error) (h' : History)
    → Polls c time_over ps h qs e h1
    → ◌≡◌ {A = Ended} (done (qs, e), h1) (done (rs, e'), h')
    → Polls c time_over ps h rs e' h'
Polls-ends {c} {ps} {h} qs e h1 rs e' h' run eq =
    let (a, b, d) = parts qs rs e e' h1 h' eq in
    subst (λ x. Polls c time_over ps h rs e' x) d
      (subst (λ x. Polls c time_over ps h rs x h1) b
        (subst (λ x. Polls c time_over ps h x e h1) a run))

zero_inv :
    (c : Condition) (ps qs : List Pod) (p : Poll) (h h1 : History) (rs : List Pod)
    (e : Option Error) (h' : History)
    → c ps h ≡ (done (qs, p), h1)
    → conclude_try p qs (pure (qs, some time_over)) h1 ≡ (done (rs, e), h')
    → Polls c time_over ps h rs e h'
zero_inv c ps qs finished h h1 rs e h' first last = Polls-ends qs none h1 rs e h' (stop first) last
zero_inv c ps qs (failed x) h h1 rs e h' first last =
    Polls-ends qs (some x) h1 rs e h' (fail first) last
zero_inv c ps qs pending h h1 rs e h' first last =
    Polls-ends qs (some time_over) h1 rs e h' (expire first) last

suc_inv :
    (n : ℕ) (c : Condition) (ps qs : List Pod) (p : Poll) (h h1 : History) (rs : List Pod)
    (e : Option Error) (h' : History)
    → c ps h ≡ (done (qs, p), h1)
    → (tries n c qs h1 ≡ (done (rs, e), h') → Polls c time_over qs h1 rs e h')
    → conclude_try p qs (tries n c qs) h1 ≡ (done (rs, e), h')
    → Polls c time_over ps h rs e h'
suc_inv n c ps qs finished h h1 rs e h' first more last =
    Polls-ends qs none h1 rs e h' (stop first) last
suc_inv n c ps qs (failed x) h h1 rs e h' first more last =
    Polls-ends qs (some x) h1 rs e h' (fail first) last
suc_inv n c ps qs pending h h1 rs e h' first more last = again first (more last)

tries-Polls :
    (n : ℕ) (c : Condition) (ps : List Pod) (h : History) (rs : List Pod) (e : Option Error)
    (h' : History)
    → tries n c ps h ≡ (done (rs, e), h')
    → Polls c time_over ps h rs e h'
tries-Polls zero c ps h rs e h' eq =
    let ((qs, p), h1, first, last) =
      bind-eq-done (c ps) (λ r. conclude_try r.1 r.0 (pure (r.0, some time_over))) h eq in
    zero_inv c ps qs p h h1 rs e h' first last
tries-Polls (suc n) c ps h rs e h' eq =
    let ((qs, p), h1, first, last) =
      bind-eq-done (c ps) (λ r. conclude_try r.1 r.0 (tries n c r.0)) h eq in
    suc_inv n c ps qs p h h1 rs e h' first (tries-Polls n c qs h1 rs e h') last

conclude_try-Keeps :
    (I : History → Type 0) (v : Poll) (qs : List Pod) (next : Action (List Pod × Option Error))
    → Keeps I next
    → Keeps I (conclude_try v qs next)
conclude_try-Keeps I finished qs next k = Keeps-pure I _
conclude_try-Keeps I (failed e) qs next k = Keeps-pure I _
conclude_try-Keeps I pending qs next k = k

tries-Keeps :
    (n : ℕ) (I : History → Type 0) (c : Condition)
    → ((ps : List Pod) → Keeps I (c ps))
    → (ps : List Pod) → Keeps I (tries n c ps)
tries-Keeps zero I c k ps =
    Keeps-bind I (c ps) (λ r. conclude_try r.1 r.0 (pure (r.0, some time_over))) (k ps)
      (λ r. conclude_try-Keeps I r.1 r.0 _ (Keeps-pure I (r.0, some time_over)))
tries-Keeps (suc n) I c k ps =
    Keeps-bind I (c ps) (λ r. conclude_try r.1 r.0 (tries n c r.0)) (k ps)
      (λ r. conclude_try-Keeps I r.1 r.0 (tries n c r.0) (tries-Keeps n I c k r.0))

pub poll_twice-IsPollImmediate : (timeout : ℤ) → IsPollImmediate (poll_twice timeout)
poll_twice-IsPollImmediate timeout = record {
  timeout_error = time_over;
  runs = tries-Polls 1;
  calls_only = tries-Keeps 1;
}

-- Whole cores, with the rounding of `math.Ceil`.
abbrev pub whole : Float64
whole = record {
  F = ℕ;
  zero_f = 0;
  add = λ a b. a + b;
  div = λ a b. a;
  ceil = λ a. a;
  to_int64 = λ a. pos a;
  of_nanocores = λ a. pos_part a;
}

abbrev pub small_nodes : NodeInfo whole
small_nodes = record { cpu = 1; memory = pos 300; min = pos 1; max = pos 5 }
