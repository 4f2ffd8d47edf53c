-- ===== src/Tests/Policies.antt =====
-- The theorems on `Reconcile` at the small cluster.
use cillion.Base.{◌*◌, string_eq, ◌≡◌, refl, none, List, ◌∷◌}
use cillion.Api.{NamespacedName, ScionClusterPeer}
use cillion.Policy.Exec.{CtrlResult, returned}
use cillion.Policy.{World, second, reconcile}
use cillion.Policy.Loop.{answers, all_ready, latest}
use cillion.Policy.Outcomes.{IsActive, Settled, reconcile_refines}
use cillion.Policy.Paths.{reconcile_again}
use cillion.Tests.Cluster.{toy, toy_view, toy-IsLawful}
use cillion.Tests.Controller.{
  peer_named, request, client, reconciler, world_of, finalized, two_peers, run,
}

abbrev pub three_peers : List ScionClusterPeer
three_peers = peer_named "far" ∷ two_peers

abbrev pub start : World toy
start = world_of finalized three_peers

abbrev pub after : World toy
after = (reconcile toy reconciler request start).1

abbrev requeued : CtrlResult
requeued = record { requeue_after = 10 * second }

pub active :
    (peers : List ScionClusterPeer)
    → IsActive toy reconciler request (world_of finalized peers) finalized
unfolding string_eq
active peers = record { found = refl; kept = refl; finalized = refl }

start_run : reconcile toy reconciler request start ≡ (returned requeued none, after)
unfolding run
start_run = refl

reconcile_refines_example :
    ((k : NamespacedName)
      → toy_view.path_at after.cluster k
        ≡ latest toy finalized k (answers toy client "low_latency" three_peers 0).0 none)
    × Settled toy toy_view toy-IsLawful reconciler finalized three_peers requeued start.cluster
        after.cluster
        (all_ready toy (answers toy client "low_latency" three_peers 0).0)
reconcile_refines_example =
    reconcile_refines toy toy_view toy-IsLawful reconciler request start finalized three_peers
      client "low_latency" (active three_peers) refl refl refl requeued after start_run

abbrev again : World toy
again = (reconcile toy reconciler request after).1

IsActive-after : IsActive toy reconciler request after finalized
unfolding run
IsActive-after = record { found = refl; kept = refl; finalized = refl }

after_run : reconcile toy reconciler request after ≡ (returned requeued none, again)
unfolding run
after_run = refl

abbrev near_path : NamespacedName
near_path = record { name = "billing-to-near"; namespace = "default" }

reconcile_again_example :
    toy_view.path_at again.cluster near_path ≡ toy_view.path_at after.cluster near_path
unfolding run
reconcile_again_example =
    reconcile_again toy toy_view toy-IsLawful reconciler request client "low_latency" "low_latency"
      start after after again finalized finalized three_peers three_peers requeued requeued refl
      refl refl (active three_peers) IsActive-after refl refl start_run (λ k. refl) after_run refl
      near_path
