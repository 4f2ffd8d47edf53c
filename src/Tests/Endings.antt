-- ===== src/Tests/Endings.antt =====
-- The theorems on the early ends of `Reconcile` and on the finalizer, at the small cluster.
use cillion.Base.{
  String, ◌==◌, string_eq, contains, ◌≡◌, ◌≢◌, ◌↔◌, refl, true, false, not, ◌&&◌, ◌||◌, none, some,
  List, [], ◌∷◌,
}
use cillion.Api.{NamespacedName, ScionClusterPeer}
use cillion.Platform.{stored_or_gone}
use cillion.Policy.Exec.{CtrlResult, returned, panicked, no_requeue, go}
use cillion.Policy.{
  World, ScionPathPolicyReconciler, cilion_finalizer, done, compute_paths, reconcile,
}
use cillion.Policy.Loop.{answers, latest}
use cillion.Policy.Outcomes.{IsActive}
use cillion.Policy.Failures.{HasNil, reconcile_panicked, reconcile_fetch_failed}
use cillion.Policy.Finalizer.{LeavesPaths, reconcile_new, reconcile_deleting}
use cillion.Tests.Cluster.{unreachable, Policy, toy, toy_view, toy-IsLawful}
use cillion.Tests.Controller.{
  peer_named, policy_with, request, client, reconciler, world_of, finalized, two_peers, run,
}
use cillion.Tests.Policies.{active}

abbrev failing : List ScionClusterPeer
failing = peer_named "near" ∷ peer_named "gone" ∷ peer_named "east" ∷ []

abbrev stopped : World toy
stopped =
    (compute_paths toy reconciler finalized (peer_named "near" ∷ []) true
      (world_of finalized failing)).1

near_loop :
    compute_paths toy reconciler finalized
      (peer_named "near" ∷ [])
      true
      (world_of finalized failing)
    ≡ (go true, stopped)
unfolding run
near_loop = refl

reconcile_fetch_failed_example :
    (reconcile toy reconciler request (world_of finalized failing)
      ≡ (returned no_requeue (some unreachable), record stopped { daemon = 2 }))
    × ((k : NamespacedName)
        → toy_view.path_at stopped.cluster k
          ≡ latest toy finalized k
              (answers toy client "low_latency" (peer_named "near" ∷ []) 0).0
              none)
    × ((k : NamespacedName)
        → toy_view.conditions_at stopped.cluster k ≡ some finalized.status.conditions)
unfolding run
reconcile_fetch_failed_example =
    reconcile_fetch_failed toy reconciler finalized toy_view toy-IsLawful client "low_latency" refl
      refl request (world_of finalized failing) (active failing) (peer_named "near" ∷ [])
      (peer_named "east" ∷ []) (peer_named "gone") true stopped unreachable refl near_loop refl

-- The reconciler that cmd/main.go makes has no client.
abbrev main_reconciler : ScionPathPolicyReconciler toy
main_reconciler = record { scheme = tt; scion_client = none }

main-IsActive : IsActive toy main_reconciler request (world_of finalized two_peers) finalized
unfolding string_eq
main-IsActive = record { found = refl; kept = refl; finalized = refl }

reconcile_panicked_example :
    ((reconcile toy main_reconciler request (world_of finalized two_peers)).0 ≡ panicked
      ↔ (two_peers ≢ []) × HasNil toy main_reconciler finalized)
    × ((reconcile toy main_reconciler request (world_of finalized two_peers)).0 ≡ panicked
        → (reconcile toy main_reconciler request (world_of finalized two_peers)).1
          ≡ world_of finalized two_peers)
reconcile_panicked_example =
    reconcile_panicked toy main_reconciler finalized request (world_of finalized two_peers)
      two_peers main-IsActive refl

abbrev new_policy : Policy
new_policy = policy_with ("other" ∷ []) none none

reconcile_new_example :
    LeavesPaths toy toy_view toy-IsLawful reconciler request
      (world_of new_policy two_peers)
      new_policy
      refl
      (reconcile toy reconciler request (world_of new_policy two_peers)).1
    × ((res : CtrlResult) (w' : World toy)
        → reconcile toy reconciler request (world_of new_policy two_peers) ≡ (returned res none, w')
        → (fs : List String) × (toy_view.finalizers_at w'.cluster request ≡ some fs)
          × ((g : String) → contains fs g ≡ (g == cilion_finalizer || contains ("other" ∷ []) g))
          × (res.requeue_after ≡ 0))
unfolding string_eq
reconcile_new_example =
    reconcile_new toy toy_view toy-IsLawful reconciler request (world_of new_policy two_peers)
      new_policy refl refl refl

abbrev deleted_policy : Policy
deleted_policy = policy_with (cilion_finalizer ∷ []) (some 7) none

reconcile_deleting_example :
    LeavesPaths toy toy_view toy-IsLawful reconciler request
      (world_of deleted_policy two_peers)
      deleted_policy
      refl
      (reconcile toy reconciler request (world_of deleted_policy two_peers)).1
    × (contains (cilion_finalizer ∷ []) cilion_finalizer ≡ false
        → reconcile toy reconciler request (world_of deleted_policy two_peers)
          ≡ (done, world_of deleted_policy two_peers))
    × ((res : CtrlResult) (w' : World toy)
        → contains (cilion_finalizer ∷ []) cilion_finalizer ≡ true
        → reconcile toy reconciler request (world_of deleted_policy two_peers)
          ≡ (returned res none, w')
        → (fs : List String) × (toy_view.finalizers_at w'.cluster request ≡ stored_or_gone fs)
          × ((g : String)
              → contains fs g
                ≡ (not (g == cilion_finalizer) && contains (cilion_finalizer ∷ []) g)))
reconcile_deleting_example =
    reconcile_deleting toy toy_view toy-IsLawful reconciler request
      (world_of deleted_policy two_peers) deleted_policy refl refl
