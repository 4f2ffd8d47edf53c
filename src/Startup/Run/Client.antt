-- ===== src/Startup/Run/Client.antt =====
-- The policy reconciler that the start-up code makes.
use cillion.Base.{◌≡◌, refl, inl, arith, List, ◌∷◌}
use cillion.Api.{NamespacedName, ScionClusterPeer}
use cillion.Platform.{Platform, ok}
use cillion.Policy.Exec.{panicked}
use cillion.Policy.{World, PathPolicy, reconcile}
use cillion.Policy.Outcomes.{IsActive}
use cillion.Policy.Failures.{reconcile_panicked}
use cillion.Startup.Run.{Runtime, policy_reconciler}

-- Under the reconciler that `main` registers, a call for an active policy panics as soon as there
-- is a peer, whatever the policy's preference is, and stores nothing.
pub main_reconciler_panics :
    (P : Platform) (T : Runtime P) (mgr : T.Manager) (req : NamespacedName) (w : World P)
    (policy : PathPolicy P) (peer : ScionClusterPeer) (peers : List ScionClusterPeer)
    → IsActive P (policy_reconciler P T mgr) req w policy
    → P.list_peers w.cluster ≡ ok (peer ∷ peers)
    → reconcile P (policy_reconciler P T mgr) req w ≡ (panicked, w)
main_reconciler_panics P T mgr req w policy peer peers active listed =
    let (iff, same) =
      reconcile_panicked P (policy_reconciler P T mgr) policy req w (peer ∷ peers) active listed in
    let stops = iff.1 (λ e. cc, inl refl) in ground (arith, stops, same stops)
