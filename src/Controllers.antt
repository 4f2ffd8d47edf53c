-- ===== src/Controllers.antt =====
-- internal/controller/scionclusterpeer_controller.go and scioncomputedpath_controller.go, and the
-- three controllers of the manager side by side.
pub mod Interleaving
use cillion.Base.{List, [], ◌∷◌, ◌++◌, map}
use cillion.Api.{NamespacedName}
use cillion.Platform.{Platform}
use cillion.Policy.Exec.{Outcome}
use cillion.Policy.{ScionPathPolicyReconciler, World, reconcile, done}
use cillion.Watches.{Event, Handlers, policies, pods, peers, enqueued}

-- The two reconcilers have a client, which is the manager's, and the scheme.
pub record ScionClusterPeerReconciler (P : Platform) : Type 0 where
  pub scheme : P.Scheme

pub record ScionComputedPathReconciler (P : Platform) : Type 0 where
  pub scheme : P.Scheme

-- The types of object that a controller may watch.
pub data Source : Type 0 where
  policy_source pod_source peer_source computed_path_source : Source

-- A request that a worker of one of the controllers takes from its queue.
pub data Task : Type 0 where
  path_policy cluster_peer computed_path : NamespacedName → Task

module _ (P : Platform) where
  -- The two scaffolds of `Reconcile`.
  abbrev pub reconcile_cluster_peer :
      ScionClusterPeerReconciler P → NamespacedName → World P → Outcome P.Error × World P
  reconcile_cluster_peer r req w = (done, w)

  abbrev pub reconcile_computed_path :
      ScionComputedPathReconciler P → NamespacedName → World P → Outcome P.Error × World P
  reconcile_computed_path r req w = (done, w)

  -- What an event on an object of a type puts into the queue of each controller: the watches of
  -- the three `SetupWithManager`.
  unfoldable pub policy_controller : Handlers P → P.Cluster → Source → Event P → List NamespacedName
  policy_controller h c policy_source e = enqueued P h c policies e
  policy_controller h c pod_source e = enqueued P h c pods e
  policy_controller h c peer_source e = enqueued P h c peers e
  policy_controller h c computed_path_source e = []

  unfoldable pub peer_controller : Handlers P → Source → Event P → List NamespacedName
  peer_controller h peer_source e = h.request_for_object e
  peer_controller h _ e = []

  unfoldable pub path_controller : Handlers P → Source → Event P → List NamespacedName
  path_controller h computed_path_source e = h.request_for_object e
  path_controller h _ e = []

  abbrev pub tasks : Handlers P → P.Cluster → Source → Event P → List Task
  tasks h c src e =
      map path_policy (policy_controller h c src e)
      ++ map cluster_peer (peer_controller h src e)
      ++ map computed_path (path_controller h src e)

  module _ (policy : ScionPathPolicyReconciler P) (peer : ScionClusterPeerReconciler P)
      (path : ScionComputedPathReconciler P) where
    unfoldable pub perform : Task → World P → Outcome P.Error × World P
    perform (path_policy req) w = reconcile P policy req w
    perform (cluster_peer req) w = reconcile_cluster_peer peer req w
    perform (computed_path req) w = reconcile_computed_path path req w

    -- The workers take turns in the order of the list.
    unfoldable pub run : List Task → World P → List (Outcome P.Error) × World P
    unfolding perform
    run [] w = ([], w)
    run (t ∷ ts) w = let (o, u) = perform t w in let (os, w') = run ts u in (o ∷ os, w')
