-- ===== src/Policy.antt =====
-- internal/controller/scionpathpolicy_controller.go: `Reconcile`. A nil pointer or interface is
-- `none`. Logging and the context are left out.
pub mod Exec
pub mod Loop
pub mod Outcomes
pub mod Paths
pub mod Finalizer
pub mod Failures
pub mod Success
pub mod Convergence
pub mod Retries
pub mod Provenance
pub mod Interference
pub mod Keeps
pub mod Ownership
use cillion.Base.{
  ℕ, ◌*◌, String, ◌<>◌, decimal, if◌then◌else◌, Bool, true, false, not, Option, none, some, List,
  [], ◌∷◌, length,
}
use cillion.Api.{
  NamespacedName, object_meta, Condition, condition_true, ScionPathPolicy, ScionComputedPath,
  ScionComputedPathSpec, ScionClusterPeer,
}
use cillion.Platform.{Platform, Result, ok, err, Fetched}
use Exec.{
  CtrlResult, Outcome, returned, panicked, Flow, go, exit, no_requeue, pure, fail_with, ◌>>=◌, ◌>>◌,
  ends,
}

abbrev pub cilion_finalizer : String
cilion_finalizer = "cilion.io/policy-finalizer"

abbrev pub default_policy_name : String
default_policy_name = "default-scion-policy"

abbrev pub second : ℕ
second = 1_000_000_000

-- `return ctrl.Result{}, nil`
abbrev pub done : {E : Type 0} → Outcome E
done = returned no_requeue none

-- `fmt.Sprintf("%s-to-%s", policy.Name, peer.Name)`
unfoldable pub computed_path_name : String → String → String
computed_path_name policy peer = policy <> ("-to-" <> peer)

module _ (P : Platform) where
  abbrev pub PathPolicy : Type 0
  PathPolicy = ScionPathPolicy P.LabelSelector

  -- `FetchPath`; the service may answer by its own state.
  abbrev pub ScionClient : Type 0
  ScionClient = String → String → P.Daemon → Fetched P.Error × P.Daemon

  pub record ScionPathPolicyReconciler : Type 0 where
    pub scheme : P.Scheme
    pub scion_client : Option ScionClient

  pub record World : Type 0 where
    pub cluster : P.Cluster
    pub daemon : P.Daemon

  abbrev pub Action : Type 0 → Type 0
  Action A = Exec.Exec World P.Error A

  -- A read whose error ends the call.
  pub read : {A : Type 0} → (P.Cluster → Result P.Error A) → Action A
  read f w = elim (f w.cluster) [
    | ok a ↦ (go a, w)
    | err e ↦ (exit (returned no_requeue (some e)), w)
  ]

  -- A write whose error ends the call.
  pub write : (P.Cluster → Option P.Error × P.Cluster) → Action Unit
  write f w = let (e, c) = f w.cluster in fail_with e (record w { cluster = c })

  -- The call of `FetchPath`: `*policy.Spec.Preference` and `r.ScionClient` are dereferenced.
  unfoldable pub fetch : Option ScionClient → String → Option String → Action (Fetched P.Error)
  fetch (some client) remote_as (some preference) w =
      let (f, d) = client remote_as preference w.daemon in (go f, record w { daemon = d })
  fetch _ _ _ w = (exit panicked, w)

  -- The object before `CreateOrUpdate`, and the callback.
  abbrev pub new_computed_path : PathPolicy → ScionClusterPeer → ScionComputedPath
  new_computed_path policy peer = record {
    meta = object_meta (computed_path_name policy.meta.name peer.meta.name) policy.meta.namespace;
    spec = record { policy_ref = ""; destination_cidr = ""; next_hop_ip = ""; hop_fields = [] };
    status = record { conditions = [] };
  }

  abbrev pub path_spec : PathPolicy → ScionClusterPeer → Fetched P.Error → ScionComputedPathSpec
  path_spec policy peer f = record {
    policy_ref = policy.meta.name;
    destination_cidr = peer.spec.pod_cidr;
    next_hop_ip = f.next_hop_ip;
    hop_fields = f.raw_hop_fields;
  }

  unfoldable pub mutate :
      P.Scheme
      → PathPolicy
      → ScionClusterPeer
      → Fetched P.Error
      → ScionComputedPath
      → Result P.Error ScionComputedPath
  mutate scheme policy peer f old = elim (P.set_controller_reference scheme policy.meta old.meta) [
    | err e ↦ err e
    | ok meta ↦ ok (record old { meta = meta; spec = path_spec policy peer f })
  ]

  module _ (r : ScionPathPolicyReconciler) where
    store_path : PathPolicy → ScionClusterPeer → Fetched P.Error → Action Unit
    unfolding write
    store_path policy peer f =
        write (P.create_or_update (new_computed_path policy peer) (mutate r.scheme policy peer f))

    -- One round of the loop; the result is `allPathsReady`.
    unfoldable pub compute_path : PathPolicy → ScionClusterPeer → Bool → Action Bool
    unfolding store_path
    compute_path policy peer ready = do
      f ← fetch r.scion_client peer.spec.remote_as policy.spec.preference
      fail_with f.failure
      if f.is_ready then (do store_path policy peer f; pure ready) else pure false

    unfoldable pub compute_paths : PathPolicy → List ScionClusterPeer → Bool → Action Bool
    compute_paths policy [] ready = pure ready
    compute_paths policy (peer ∷ peers) ready =
        compute_path policy peer ready >>= compute_paths policy peers

    abbrev pub ready_condition : PathPolicy → List ScionClusterPeer → Condition
    ready_condition policy peers = record {
      type_ = "Ready";
      status = condition_true;
      observed_generation = policy.meta.generation;
      last_transition_time = 0;
      reason = "PathsComputed";
      message = "Computed paths for " <> (decimal (length peers) <> " destinations");
    }

    abbrev pub with_ready : PathPolicy → List ScionClusterPeer → PathPolicy
    with_ready policy peers = record policy {
      status = record {
        conditions = P.set_status_condition policy.status.conditions (ready_condition policy peers);
      };
    }

    -- From the deletion test on; each helper is a stretch of the body.
    unfoldable pub reconcile_deleted : PathPolicy → Action (Outcome P.Error)
    unfolding write
    reconcile_deleted policy =
        if P.contains_finalizer policy.meta cilion_finalizer
        then (do
          write (
              P.update_policy
                (record policy { meta = P.remove_finalizer policy.meta cilion_finalizer }))
          pure done)
        else pure done

    unfoldable pub add_finalizer : PathPolicy → Action (Outcome P.Error)
    unfolding write
    add_finalizer policy = do
      write
          (P.update_policy (record policy { meta = P.add_finalizer policy.meta cilion_finalizer }))
      pure done

    unfoldable pub finish : PathPolicy → List ScionClusterPeer → Bool → Action (Outcome P.Error)
    unfolding write
    finish policy peers ready =
        if not ready
        then pure (returned (record { requeue_after = 10 * second }) none)
        else (do write (P.update_policy_status (with_ready policy peers)); pure done)

    unfoldable pub reconcile_paths : PathPolicy → Action (Outcome P.Error)
    unfolding read
    reconcile_paths policy = do
      peers ← read P.list_peers
      ready ← compute_paths policy peers true
      finish policy peers ready

    unfoldable pub reconcile_policy : PathPolicy → Action (Outcome P.Error)
    reconcile_policy policy =
        if not (P.is_zero policy.meta.deletion_timestamp)
        then reconcile_deleted policy
        else if not (P.contains_finalizer policy.meta cilion_finalizer)
        then add_finalizer policy
        else reconcile_paths policy

    unfoldable pub reconcile : NamespacedName → World → Outcome P.Error × World
    reconcile req w = elim (P.get_policy req w.cluster) [
      | err e ↦ (returned no_requeue (P.ignore_not_found e), w)
      | ok policy ↦ ends (reconcile_policy policy w)
    ]
