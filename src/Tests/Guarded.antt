-- ===== src/Tests/Guarded.antt =====
-- The small cluster under the role of the manager.
use cillion.Base.{string_eq, ◌≡◌, refl, none, some, true, false, ◌++◌}
use cillion.Api.{NamespacedName}
use cillion.Policy.Exec.{returned, no_requeue}
use cillion.Policy.{
  ScionClient, ScionPathPolicyReconciler, World, reconcile, mutate, computed_path_name,
}
use cillion.Policy.Loop.{answers, latest}
use cillion.Policy.Outcomes.{IsActive}
use cillion.Access.{allows, manager_role, policy_markers, peer_markers, path_markers}
use cillion.Access.Role.{allows-manager_role}
use cillion.Access.Status.{Guarded, reconcile_never_ready}
use cillion.Tests.Cluster.{unreachable, toy, toy_view, toy-IsLawful}
use cillion.Tests.Controller.{request, client, world_of, finalized, two_peers}

allows-manager_role_example :
    allows manager_role "cilion.cilion.io" "scionpathpolicies/status" "update"
    ≡ allows
        (policy_markers ++ (peer_markers ++ path_markers))
        "cilion.cilion.io"
        "scionpathpolicies/status"
        "update"
allows-manager_role_example =
    allows-manager_role "cilion.cilion.io" "scionpathpolicies/status" "update"

-- The role lets the manager update the status of a peer, and not that of a policy.
status_of_peers : allows manager_role "cilion.cilion.io" "scionclusterpeers/status" "update" ≡ true
unfolding string_eq
status_of_peers = refl

status_of_policies :
    allows manager_role "cilion.cilion.io" "scionpathpolicies/status" "update" ≡ false
unfolding string_eq
status_of_policies = refl

abbrev guarded_client : ScionClient (Guarded toy unreachable)
guarded_client = client

abbrev guarded_reconciler : ScionPathPolicyReconciler (Guarded toy unreachable)
guarded_reconciler = record { scheme = tt; scion_client = some guarded_client }

abbrev guarded_world : World (Guarded toy unreachable)
guarded_world = record { cluster = (world_of finalized two_peers).cluster; daemon = 0 }

guarded-IsActive :
    IsActive (Guarded toy unreachable) guarded_reconciler request guarded_world finalized
unfolding string_eq
guarded-IsActive = record { found = refl; kept = refl; finalized = refl }

reconcile_never_ready_example :
    (w' : World (Guarded toy unreachable)) × (reconcile
        (Guarded toy unreachable)
        guarded_reconciler
        request
        guarded_world
      ≡ (returned no_requeue (some unreachable), w'))
    × ((k : NamespacedName)
        → toy_view.path_at w'.cluster k
          ≡ latest
              (Guarded toy unreachable)
              finalized
              k
              (answers (Guarded toy unreachable) guarded_client "low_latency" two_peers 0).0
              none)
    × ((k : NamespacedName)
        → toy_view.conditions_at w'.cluster k ≡ toy_view.conditions_at guarded_world.cluster k)
unfolding client string_eq mutate computed_path_name
reconcile_never_ready_example =
    reconcile_never_ready toy unreachable toy_view toy-IsLawful guarded_reconciler guarded_client
      refl request guarded_world finalized two_peers "low_latency" guarded-IsActive refl refl
      (refl, (refl, tt)) ((λ h. refl), ((λ h. refl), tt))
