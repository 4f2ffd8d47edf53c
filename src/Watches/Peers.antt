-- ===== src/Watches/Peers.antt =====
-- What an event on a `ScionClusterPeer` leads to.
use cillion.Base.{◌≡◌, none, List, [], ◌∷◌, arith}
use cillion.Api.{NamespacedName, key_of}
use cillion.Platform.{Platform, err}
use cillion.Policy.Exec.{Outcome}
use cillion.Policy.{ScionPathPolicyReconciler, World, reconcile, done}
use cillion.Watches.{Event, Handlers, IsLawful, meta_of, object_of, peers, enqueued}

module _ (P : Platform) (r : ScionPathPolicyReconciler P) where
  -- The worker takes the requests from the queue one after the other.
  abbrev pub work : List NamespacedName → World P → List (Outcome P.Error) × World P
  work [] w = ([], w)
  work (req ∷ reqs) w =
      let (o, u) = reconcile P r req w in let (os, w') = work reqs u in (o ∷ os, w')

  reconcile_missing :
      (req : NamespacedName) (w : World P) (missing : P.Error)
      → P.get_policy req w.cluster ≡ err missing
      → P.ignore_not_found missing ≡ none
      → reconcile P r req w ≡ (done, w)
  unfolding reconcile
  reconcile_missing req w missing absent ignored = ground arith

  -- An event on a peer asks for the policy with the peer's own name and namespace. If there is no
  -- such policy, the call that follows returns at once and changes nothing: no path of any policy
  -- is computed again, whatever the event was.
  pub peer_event_recomputes_nothing :
      (h : Handlers P) (L : IsLawful P h) (e : Event P) (w : World P) (missing : P.Error)
      → P.get_policy (key_of (meta_of P (object_of P e))) w.cluster ≡ err missing
      → P.ignore_not_found missing ≡ none
      → work (enqueued P h w.cluster peers e) w ≡ (done ∷ [], w)
  unfolding enqueued
  peer_event_recomputes_nothing h L e w missing absent ignored =
      rw (L.request_for_object_lem e, reconcile_missing _ w missing absent ignored)
