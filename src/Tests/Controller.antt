-- ===== src/Tests/Controller.antt =====
-- Runs of the controller on the small cluster, and its theorems there.
use cillion.Base.{
  ℕ, ◌+◌, ◌*◌, String, ◌==◌, ◌<>◌, string_eq, if◌then◌else◌, ◌≡◌, refl, not, Option, none, some,
  List, [], ◌∷◌,
}
use cillion.Api.{NamespacedName, object_meta, ScionClusterPeer}
use cillion.Policy.Exec.{Outcome, returned, panicked}
use cillion.Policy.{
  ScionClient, ScionPathPolicyReconciler, World, cilion_finalizer, second, done, fetch, mutate,
  compute_path, compute_paths, finish, reconcile_deleted, add_finalizer, reconcile_paths,
  reconcile_policy, reconcile, computed_path_name,
}
use cillion.Tests.Cluster.{Failure, unreachable, Policy, toy}

abbrev pub peer_named : String → ScionClusterPeer
peer_named name = record {
  meta = object_meta name "default";
  spec = record { remote_as = "64-" <> name; pod_cidr = "10.244.2.0/24" };
  status = record { conditions = [] };
}

abbrev pub policy_with : List String → Option ℕ → Option String → Policy
policy_with finalizers deleted preference = record {
  meta = record (object_meta "billing" "default") {
    finalizers = finalizers;
    deletion_timestamp = deleted;
    generation = 3;
  };
  spec = record { pod_selector = ("app", "billing") ∷ []; preference = preference };
  status = record { conditions = [] };
}

abbrev pub request : NamespacedName
request = record { name = "billing"; namespace = "default" }

-- The service is not ready for "64-far", and fails for "64-gone". It counts the calls.
unfoldable pub client : ScionClient toy
client remote_as preference d = (
  record {
    is_ready = not (remote_as == "64-far");
    raw_hop_fields = 1 ∷ 2 ∷ [];
    next_hop_ip = "198.51.100.42";
    failure = if remote_as == "64-gone" then some unreachable else none;
  },
  d + 1,
)

abbrev pub reconciler : ScionPathPolicyReconciler toy
reconciler = record { scheme = tt; scion_client = some client }

abbrev pub world_of : Policy → List ScionClusterPeer → World toy
world_of p peers = record {
  cluster = record { policies = λ k. some p; paths = λ k. none; peers = peers; listed = p ∷ [] };
  daemon = 0;
}

abbrev pub finalized : Policy
finalized = policy_with (cilion_finalizer ∷ []) none (some "low_latency")

abbrev pub two_peers : List ScionClusterPeer
two_peers = peer_named "near" ∷ peer_named "east" ∷ []

unfoldable pub run : ScionPathPolicyReconciler toy → World toy → Outcome Failure × World toy
unfolding reconcile reconcile_policy reconcile_deleted add_finalizer reconcile_paths compute_paths
    compute_path fetch finish mutate computed_path_name client string_eq
run r w = reconcile toy r request w

two_peers-run : (run reconciler (world_of finalized two_peers)).0 ≡ done
unfolding run
two_peers-run = refl

far_peer_run :
    (run reconciler (world_of finalized (peer_named "far" ∷ two_peers))).0
    ≡ returned (record { requeue_after = 10 * second }) none
unfolding run
far_peer_run = refl

main_run :
    (run (record { scheme = tt; scion_client = none }) (world_of finalized two_peers)).0 ≡ panicked
unfolding run
main_run = refl
