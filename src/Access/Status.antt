-- ===== src/Access/Status.antt =====
-- `Reconcile` under the manager's role: no policy ever becomes ready.
use cillion.Base.{
  ◌*◌, ◌&&◌, String, string_eq, ◌≡◌, refl, if◌then◌else◌, Bool, true, false, none, some, List,
  arith,
}
use cillion.Api.{NamespacedName, ScionClusterPeer}
use cillion.Platform.{Platform, View, IsLawful, ok}
use cillion.Policy.Exec.{Outcome, returned, no_requeue, ends}
use cillion.Policy.{
  ScionClient, ScionPathPolicyReconciler, World, PathPolicy, second, finish, reconcile,
}
use cillion.Policy.Loop.{answers, all_ready, latest, compute_paths_lem}
use cillion.Policy.Outcomes.{
  IsActive, reconcile_active, reconcile_paths_listed, compute_paths-conditions,
}
use cillion.Policy.Success.{PathsTaken, all_behind, AllAnswered, compute_paths_goes}
use cillion.Access.{manager_role}
use cillion.Access.Server.{enforced, without_status}

module _ (P : Platform) (forbidden : P.Error) where
  abbrev S : Platform
  S = without_status P forbidden

  abbrev same_view : View P → View S
  same_view v = record {
    finalizers_at = v.finalizers_at;
    conditions_at = v.conditions_at;
    path_at = v.path_at;
  }

  module _ (v : View P) (L : IsLawful P v) where
    without_status-IsLawful : IsLawful S (same_view v)
    without_status-IsLawful = record {
      get-key = L.get-key;
      finalizers-update = L.finalizers-update;
      conditions-update_status = λ p c c' h. absurd (ground arith);
      contains_finalizer_lem = L.contains_finalizer_lem;
      contains-add_finalizer = L.contains-add_finalizer;
      contains-remove_finalizer = L.contains-remove_finalizer;
      add_finalizer_rest = L.add_finalizer_rest;
      remove_finalizer_rest = L.remove_finalizer_rest;
      conditions-create_or_update = L.conditions-create_or_update;
      path-update = L.path-update;
      path-update_status = λ p c k. refl;
      path-create_or_update = L.path-create_or_update;
    }

  -- A delay if some answer was not ready; the refusal of the status update otherwise.
  abbrev pub refused : Bool → Outcome P.Error
  refused ready =
      if ready
      then returned no_requeue (some forbidden)
      else returned (record { requeue_after = 10 * second }) none

  finish-refused :
      (r : ScionPathPolicyReconciler S) (policy : PathPolicy S) (peers : List ScionClusterPeer)
      (ready : Bool) (u : World S)
      → ends (finish S r policy peers ready u) ≡ (refused ready, u)
  unfolding finish
  finish-refused r policy peers true u = refl
  finish-refused r policy peers false u = refl

  module _ (v : View P) (L : IsLawful P v) (r : ScionPathPolicyReconciler S)
      (client : ScionClient S) (has_client : r.scion_client ≡ some client) where
    reconcile_without_status :
        (req : NamespacedName) (w : World S) (policy : PathPolicy S) (peers : List ScionClusterPeer)
        (preference : String)
        → IsActive S r req w policy
        → P.list_peers w.cluster ≡ ok peers
        → policy.spec.preference ≡ some preference
        → let got = (answers S client preference peers w.daemon).0 in
          AllAnswered S got
          → PathsTaken S r policy client preference peers w
          → (w' : World S) × (reconcile S r req w ≡ (refused (all_ready S got), w'))
            × ((k : NamespacedName)
                → v.path_at w'.cluster k ≡ latest S policy k got (v.path_at w.cluster k))
            × ((k : NamespacedName) → v.conditions_at w'.cluster k ≡ v.conditions_at w.cluster k)
    reconcile_without_status req w policy peers preference active listed has_preference answered
          taken =
        let loop =
          compute_paths_goes S r policy client preference has_client has_preference peers true w
            answered taken in
        let u = all_behind S r policy client preference peers w in
        let ready = all_ready S (answers S client preference peers w.daemon).0 in
        let (flag, moved, wrote) =
          compute_paths_lem S (same_view v) (without_status-IsLawful v L) r policy client preference
            has_client has_preference peers true (true && ready) w u loop in
        (
          u,
          rw
              (
                reconcile_active S r req w policy active,
                reconcile_paths_listed S r policy peers w listed,
                loop,
              )
              (finish-refused r policy peers ready u),
          wrote,
          λ k. rw loop at (
              compute_paths-conditions S (same_view v) (without_status-IsLawful v L) r policy peers
                true w k),
        )

  -- The API server under the role of config/rbac/role.yaml.
  abbrev pub Guarded : Platform
  Guarded = enforced P forbidden manager_role

  -- On a server that enforces the role of config/rbac/role.yaml, for an active policy with a client,
  -- a preference and the peers listed, where each write of a computed path that the call makes
  -- is taken and the SCION service answers without an error: the call stores for every key what the answers say, and leaves the
  -- conditions of every policy as they were. If each answer was ready, it returns the server's
  -- refusal of the status update as its error; if not, it asks for a requeue after 10 seconds.
  pub reconcile_never_ready :
      (v : View P)
      → IsLawful P v
      → (r : ScionPathPolicyReconciler Guarded) (client : ScionClient Guarded)
      → r.scion_client ≡ some client
      → (req : NamespacedName) (w : World Guarded) (policy : PathPolicy Guarded)
        (peers : List ScionClusterPeer) (preference : String)
      → IsActive Guarded r req w policy
      → P.list_peers w.cluster ≡ ok peers
      → policy.spec.preference ≡ some preference
      → let got = (answers Guarded client preference peers w.daemon).0 in
        AllAnswered Guarded got
        → PathsTaken Guarded r policy client preference peers w
        → (w' : World Guarded) × (reconcile Guarded r req w ≡ (refused (all_ready Guarded got), w'))
          × ((k : NamespacedName)
              → v.path_at w'.cluster k ≡ latest Guarded policy k got (v.path_at w.cluster k))
          × ((k : NamespacedName) → v.conditions_at w'.cluster k ≡ v.conditions_at w.cluster k)
  unfolding string_eq
  reconcile_never_ready = reconcile_without_status
