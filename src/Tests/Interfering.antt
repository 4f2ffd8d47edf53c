-- ===== src/Tests/Interfering.antt =====
-- Others add a peer and take all peers away while `Reconcile` runs on the small cluster.
use cillion.Base.{string_eq, ◌≡◌, refl, none, some, [], ◌∷◌}
use cillion.Api.{NamespacedName}
use cillion.Policy.Exec.{CtrlResult, returned}
use cillion.Policy.{
  ScionClient, ScionPathPolicyReconciler, World, reconcile, mutate, computed_path_name,
}
use cillion.Policy.Loop.{answers, all_ready, latest}
use cillion.Policy.Outcomes.{Settled}
use cillion.Policy.Interference.{
  Others, interfered, interfered_view, LeavesResults, interfered-IsLawful, reconcile_with_others,
}
use cillion.Tests.Cluster.{toy, toy_view, toy-IsLawful}
use cillion.Tests.Controller.{peer_named, request, client, world_of, finalized, two_peers}
use cillion.Tests.Policies.{three_peers}

abbrev busy : Others toy
busy = record {
  before_get = λ n c. record c { listed = [] };
  before_list = λ n c. record c { peers = peer_named "far" ∷ c.peers };
  before_write = λ n c. record c { peers = [] };
}

busy-LeavesResults : LeavesResults toy busy toy_view
busy-LeavesResults = record {
  get = λ n c k. (refl, refl);
  list = λ n c k. (refl, refl);
  write = λ n c k. (refl, refl);
}

abbrev busy_client : ScionClient (interfered toy busy)
busy_client = client

abbrev busy_reconciler : ScionPathPolicyReconciler (interfered toy busy)
busy_reconciler = record { scheme = tt; scion_client = some busy_client }

abbrev busy_world : World (interfered toy busy)
busy_world = record { cluster = ((world_of finalized two_peers).cluster, 0); daemon = 0 }

reconcile_with_others_example :
    (w' : World (interfered toy busy)) × (res : CtrlResult) × (reconcile
        (interfered toy busy)
        busy_reconciler
        request
        busy_world
      ≡ (returned res none, w'))
    × ((k : NamespacedName)
        → toy_view.path_at w'.cluster.0 k
          ≡ latest
              (interfered toy busy)
              finalized
              k
              (answers (interfered toy busy) busy_client "low_latency" three_peers 0).0
              none)
    × Settled
        (interfered toy busy)
        (interfered_view toy busy toy_view)
        (interfered-IsLawful toy busy toy_view toy-IsLawful busy-LeavesResults)
        busy_reconciler
        finalized
        three_peers
        res
        busy_world.cluster
        w'.cluster
        (all_ready
          (interfered toy busy)
          (answers (interfered toy busy) busy_client "low_latency" three_peers 0).0)
unfolding client string_eq mutate computed_path_name
reconcile_with_others_example =
    reconcile_with_others toy busy toy_view toy-IsLawful busy-LeavesResults busy_reconciler
      busy_client refl request busy_world finalized three_peers "low_latency" refl refl refl refl
      refl (refl, (refl, (refl, tt)))
      (record { paths = ((λ h. refl), ((λ h. refl), ((λ h. refl), tt))); status = λ h. refl })
