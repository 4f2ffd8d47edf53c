-- ===== src/Tests/Watching.antt =====
-- The theorems on the watches at the small cluster.
use cillion.Base.{◌+◌, String, string_eq, ◌≡◌, ◌≢◌, refl, true, none, List, [], ◌∷◌}
use cillion.Api.{key_of, object_meta, ScionClusterPeer, ObjectMeta}
use cillion.Policy.{World, done}
use cillion.Watches.{
  Pod, pod, policy, peer, other, create, delete, Event, Handlers, IsLawful, object_of, meta_of,
  peers, enqueued, pod_to_policy,
}
use cillion.Watches.Wakeups.{passes, updates_passed, pod_life_wakes}
use cillion.Watches.Mapper.{keys, selecting, or_default, pod_to_policy_lem}
use cillion.Watches.Peers.{work, peer_event_recomputes_nothing}
use cillion.Controllers.{
  ScionClusterPeerReconciler, ScionComputedPathReconciler, Task, path_policy, cluster_peer,
}
use cillion.Tests.Cluster.{Policy, not_found, toy}
use cillion.Tests.Controller.{peer_named, reconciler, world_of, finalized, two_peers}

abbrev toy_handlers : Handlers toy
toy_handlers = record {
  nil_func = λ e. true;
  generation_changed = λ e. true;
  request_for_object = λ e. key_of (meta_of toy (object_of toy e)) ∷ [];
  requests_from_map_func = λ f e. f (object_of toy e);
}

toy_handlers-IsLawful : IsLawful toy toy_handlers
toy_handlers-IsLawful = record { request_for_object_lem = λ e. refl; nil_func_lem = λ e. refl }

abbrev pod_at : String → Pod
pod_at ip = record { meta = object_meta "web" "default"; pod_ip = ip }

pod_life_wakes_example :
    (passes toy toy_handlers (create (pod (pod_at "")))
        + updates_passed toy toy_handlers
            (pod_at "")
            (pod_at "" ∷ pod_at "10.0.1.5" ∷ pod_at "10.0.1.5" ∷ [])
      ≡ 1)
    × (passes toy toy_handlers (delete (pod (pod_at "10.0.1.5"))) ≡ 1)
unfolding string_eq
pod_life_wakes_example =
    pod_life_wakes toy toy_handlers (pod_at "")
      (pod_at "" ∷ pod_at "10.0.1.5" ∷ pod_at "10.0.1.5" ∷ []) toy_handlers-IsLawful
      ((λ h. h), ((λ h. absurd (h refl)), ((λ h. h), tt)))

pod_to_policy_lem_example :
    (pod_to_policy toy (world_of finalized two_peers).cluster (pod (pod_at "10.0.1.5"))
      ≡ or_default toy
          (pod_at "10.0.1.5")
          (keys toy (pod_at "10.0.1.5") (selecting toy (pod_at "10.0.1.5") (finalized ∷ []))))
    × (pod_to_policy toy (world_of finalized two_peers).cluster (pod (pod_at "10.0.1.5")) ≢ [])
    × ((p : Policy) → pod_to_policy toy (world_of finalized two_peers).cluster (policy p) ≡ [])
    × ((p : ScionClusterPeer)
        → pod_to_policy toy (world_of finalized two_peers).cluster (peer p) ≡ [])
    × ((m : ObjectMeta) → pod_to_policy toy (world_of finalized two_peers).cluster (other m) ≡ [])
pod_to_policy_lem_example =
    pod_to_policy_lem toy (pod_at "10.0.1.5") (world_of finalized two_peers).cluster

-- No policy is stored, so there is none that is named like the peer.
abbrev no_policies : World toy
no_policies = record {
  cluster = record (world_of finalized two_peers).cluster { policies = λ k. none };
  daemon = 0;
}

peer_event_example :
    work toy reconciler
      (enqueued toy toy_handlers no_policies.cluster peers (create (peer (peer_named "near"))))
      no_policies
    ≡ (done ∷ [], no_policies)
peer_event_example =
    peer_event_recomputes_nothing toy reconciler toy_handlers toy_handlers-IsLawful
      (create (peer (peer_named "near"))) no_policies not_found refl refl

abbrev toy_peer_reconciler : ScionClusterPeerReconciler toy
toy_peer_reconciler = record { scheme = reconciler.scheme }

abbrev toy_path_reconciler : ScionComputedPathReconciler toy
toy_path_reconciler = record { scheme = reconciler.scheme }

abbrev path_deleted : Event toy
path_deleted = delete (other (object_meta "web-to-near" "default"))

-- The policy waits, and a peer.
abbrev waiting : List Task
waiting = path_policy (key_of finalized.meta) ∷ cluster_peer (key_of (peer_named "near").meta) ∷ []
