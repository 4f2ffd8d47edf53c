-- ===== src/Policy/Success.antt =====
-- `Reconcile` where no write that it makes is refused, with a SCION service that answers.
use cillion.Base.{
  ◌*◌, String, if◌then◌else◌, ◌≡◌, Bool, true, ◌&&◌, Option, none, some, List, [], ◌∷◌, arith, All,
}
use cillion.Api.{NamespacedName, ScionClusterPeer}
use cillion.Platform.{Platform, ok, Fetched}
use cillion.Policy.Exec.{returned, go, ends}
use cillion.Policy.{
  ScionClient, ScionPathPolicyReconciler, World, PathPolicy, second, fetch, mutate, compute_path,
  compute_paths, finish, reconcile, new_computed_path, with_ready,
}
use cillion.Policy.Loop.{answers, all_ready, Answers}
use cillion.Policy.Outcomes.{IsActive, reconcile_active, reconcile_paths_listed}

and_assoc : (a b c : Bool) → (a && (b && c)) ≡ ((a && b) && c)
and_assoc a b c = ground arith

module _ (P : Platform) where
  -- No answer has an error.
  abbrev pub AllAnswered : Answers P → Type 0
  AllAnswered = All (λ (peer, f). f.failure ≡ none)

  module _ (r : ScionPathPolicyReconciler P) (policy : PathPolicy P) (client : ScionClient P)
      (preference : String) where
    -- The write of a computed path, with the callback that sets its controller.
    abbrev pub stored : ScionClusterPeer → Fetched P.Error → P.Cluster → Option P.Error × P.Cluster
    stored peer f c =
        P.create_or_update (new_computed_path P policy peer) (mutate P r.scheme policy peer f) c

    -- The world behind a round of the loop, and behind the loop.
    abbrev pub behind : ScionClusterPeer → World P → World P
    behind peer w =
        let (f, d) = client peer.spec.remote_as preference w.daemon in
        record {
          cluster = if f.is_ready then (stored peer f w.cluster).1 else w.cluster;
          daemon = d;
        }

    abbrev pub all_behind : List ScionClusterPeer → World P → World P
    all_behind [] w = w
    all_behind (peer ∷ peers) w = all_behind peers (behind peer w)

    -- Each write of a computed path that the call makes, where it makes it, returns no error.
    abbrev pub PathsTaken : List ScionClusterPeer → World P → Type 0
    PathsTaken [] w = Unit
    PathsTaken (peer ∷ peers) w =
        ((client peer.spec.remote_as preference w.daemon).0.is_ready ≡ true
          → (stored peer (client peer.spec.remote_as preference w.daemon).0 w.cluster).0 ≡ none)
        × PathsTaken peers (behind peer w)

    -- The same of each write of the call.
    pub record CallTaken (peers : List ScionClusterPeer) (w : World P) : Type 0 where
      pub paths : PathsTaken peers w
      pub status :
          all_ready P (answers P client preference peers w.daemon).0 ≡ true
          → (P.update_policy_status (with_ready P r policy peers) (all_behind peers w).cluster).0
            ≡ none

  module _ (r : ScionPathPolicyReconciler P) (policy : PathPolicy P) (client : ScionClient P)
      (preference : String) (has_client : r.scion_client ≡ some client)
      (has_preference : policy.spec.preference ≡ some preference) where
    compute_path_goes :
        (peer : ScionClusterPeer) (ready : Bool) (w : World P)
        → let f = (client peer.spec.remote_as preference w.daemon).0 in
          f.failure ≡ none
          → (f.is_ready ≡ true → (stored r policy client preference peer f w.cluster).0 ≡ none)
          → compute_path P r policy peer ready w
            ≡ (go (ready && f.is_ready), behind r policy client preference peer w)
    unfolding compute_path fetch
    compute_path_goes peer ready w h taken = ground arith

    pub compute_paths_goes :
        (peers : List ScionClusterPeer) (ready : Bool) (w : World P)
        → AllAnswered (answers P client preference peers w.daemon).0
        → PathsTaken r policy client preference peers w
        → compute_paths P r policy peers ready w ≡ (
          go (ready && all_ready P (answers P client preference peers w.daemon).0),
          all_behind r policy client preference peers w,
        )
    unfolding compute_paths
    compute_paths_goes [] ready w h taken = ground arith
    compute_paths_goes (peer ∷ peers) ready w (h, hs) (taken, rest) =
        let f = (client peer.spec.remote_as preference w.daemon).0 in
        rw (compute_path_goes peer ready w h taken, and_assoc ready f.is_ready _)
          (compute_paths_goes peers (ready && f.is_ready) (behind r policy client preference peer w)
            hs rest)

    finish_goes :
        (peers : List ScionClusterPeer) (ready : Bool) (u : World P)
        → (ready ≡ true → (P.update_policy_status (with_ready P r policy peers) u.cluster).0 ≡ none)
        → (w' : World P) × (ends (finish P r policy peers ready u)
            ≡ (returned (record { requeue_after = if ready then 0 else 10 * second }) none, w'))
    unfolding finish
    finish_goes peers ready u taken = ((ends (finish P r policy peers ready u)).1, ground arith)

    -- For an active policy with a client, a preference and the peers listed: if no write of the call
    -- is refused and the SCION service answers without an error, then the call returns no error. It
    -- asks for a requeue after 10 seconds if some answer was not ready, and for none if each was.
    pub reconcile_succeeds :
        (req : NamespacedName) (w : World P) (peers : List ScionClusterPeer)
        → IsActive P r req w policy
        → P.list_peers w.cluster ≡ ok peers
        → AllAnswered (answers P client preference peers w.daemon).0
        → CallTaken r policy client preference peers w
        → let ready = all_ready P (answers P client preference peers w.daemon).0 in
          (w' : World P) × (reconcile P r req w
            ≡ (returned (record { requeue_after = if ready then 0 else 10 * second }) none, w'))
    reconcile_succeeds req w peers active listed answered taken =
        let ready = all_ready P (answers P client preference peers w.daemon).0 in
        let (w', last) =
          finish_goes peers ready (all_behind r policy client preference peers w) taken.status in
        (
          w',
          rw
              (
                reconcile_active P r req w policy active,
                reconcile_paths_listed P r policy peers w listed,
                compute_paths_goes peers true w answered taken.paths,
              )
              last,
        )
