-- ===== src/Policy/Failures.antt =====
-- Where `Reconcile` ends early: a nil client or preference, and an answer with an error.
use cillion.Base.{
  String, ◌≡◌, refl, ap, ◌↔◌, ◌⊎◌, inl, inr, ◌≢◌, Bool, true, none, some, List, [], ◌∷◌, ◌++◌,
  arith,
}
use cillion.Api.{NamespacedName, ScionClusterPeer}
use cillion.Platform.{Platform, View, IsLawful, ok}
use cillion.Policy.Exec.{
  Outcome, returned, panicked, Flow, go, exit, no_requeue, continue, ◌>>=◌, >>=-eq-exit, ends,
}
use cillion.Policy.{
  ScionClient, ScionPathPolicyReconciler, World, PathPolicy, fetch, compute_path, compute_paths,
  finish, reconcile,
}
use cillion.Policy.Loop.{answers, latest, compute_paths_lem}
use cillion.Policy.Outcomes.{
  IsActive, reconcile_active, reconcile_paths_listed, compute_paths-conditions,
}

module _ (P : Platform) (r : ScionPathPolicyReconciler P) (policy : PathPolicy P) where
  -- One of the two pointers that a round dereferences is nil.
  abbrev pub HasNil : Type 0
  HasNil = (r.scion_client ≡ none) ⊎ (policy.spec.preference ≡ none)

  compute_path_nil :
      (peer : ScionClusterPeer) (ready : Bool) (w : World P)
      → HasNil
      → compute_path P r policy peer ready w ≡ (exit panicked, w)
  unfolding compute_path fetch
  compute_path_nil peer ready w h = ground arith

  compute_path_panicked :
      (peer : ScionClusterPeer) (ready : Bool) (w w' : World P)
      → compute_path P r policy peer ready w ≡ (exit panicked, w')
      → HasNil
  unfolding compute_path fetch
  compute_path_panicked peer ready w w' h = ground arith

  compute_paths_panicked :
      (peers : List ScionClusterPeer) (ready : Bool) (w w' : World P)
      → compute_paths P r policy peers ready w ≡ (exit panicked, w')
      → (peers ≢ []) × HasNil
  unfolding compute_paths
  compute_paths_panicked [] ready w w' h = ground arith
  compute_paths_panicked (peer ∷ peers) ready w w' h =
      let one = compute_path P r policy peer ready in
      let rest = compute_paths P r policy peers in
      (
        λ e. cc,
        elim (>>=-eq-exit one rest w w' panicked h) [
          | inl e ↦ compute_path_panicked peer ready w w' e
          | inr (b, u, e, k) ↦ (compute_paths_panicked peers b u w' k).1
        ],
      )

  finish_ne_panicked :
      (peers : List ScionClusterPeer) (ready : Bool) (w : World P)
      → (ends (finish P r policy peers ready w)).0 ≢ panicked
  unfolding finish
  finish_ne_panicked peers ready w h = ground arith

  ends-loop-panicked :
      (peers : List ScionClusterPeer) (w : World P)
      → (ends ((compute_paths P r policy peers true >>= finish P r policy peers) w)).0 ≡ panicked
      → (peers ≢ []) × HasNil
  ends-loop-panicked peers w h = by_loop (compute_paths P r policy peers true w) refl h
    where
      by_loop :
          (x : Flow P.Error Bool × World P)
          → compute_paths P r policy peers true w ≡ x
          → (ends (continue x.0 (finish P r policy peers) x.1)).0 ≡ panicked
          → (peers ≢ []) × HasNil
      by_loop (go b, u) e k = absurd (finish_ne_panicked peers b u k)
      by_loop (exit o, u) e k = compute_paths_panicked peers true w u (rw e (ground arith))

  ends-loop-nil :
      (peers : List ScionClusterPeer) (w : World P)
      → peers ≢ []
      → HasNil
      → ends ((compute_paths P r policy peers true >>= finish P r policy peers) w) ≡ (panicked, w)
  unfolding compute_paths
  ends-loop-nil [] w ne h = absurd (ne refl)
  ends-loop-nil (peer ∷ peers) w ne h = rw (compute_path_nil peer true w h)

  module _ (req : NamespacedName) (w : World P) (peers : List ScionClusterPeer)
      (active : IsActive P r req w policy) (listed : P.list_peers w.cluster ≡ ok peers) where
    -- For an active policy with the peers listed, a call panics exactly when there is a peer and
    -- the client or the preference is nil. Such a call has changed nothing.
    pub reconcile_panicked :
        ((reconcile P r req w).0 ≡ panicked ↔ (peers ≢ []) × HasNil)
        × ((reconcile P r req w).0 ≡ panicked → (reconcile P r req w).1 ≡ w)
    reconcile_panicked =
        rw
          (
            reconcile_active P r req w policy active,
            reconcile_paths_listed P r policy peers w listed,
          )
          (
            (
              ends-loop-panicked peers w,
              λ h. ap (λ (x : Outcome P.Error × World P). x.0) (ends-loop-nil peers w h.0 h.1),
            ),
            λ h.
                let (ne, nil) = ends-loop-panicked peers w h in
                ap (λ (x : Outcome P.Error × World P). x.1) (ends-loop-nil peers w ne nil),
          )

  compute_paths-append :
      (done rest : List ScionClusterPeer) (ready : Bool) (w : World P)
      → compute_paths P r policy (done ++ rest) ready w
        ≡ (compute_paths P r policy done ready >>= compute_paths P r policy rest) w
  unfolding compute_paths
  compute_paths-append [] rest ready w = refl
  compute_paths-append (peer ∷ done) rest ready w =
      by_first (compute_path P r policy peer ready w) (λ b u. compute_paths-append done rest b u)
    where
      by_first :
          (x : Flow P.Error Bool × World P)
          → ((b : Bool) (u : World P)
              → compute_paths P r policy (done ++ rest) b u
                ≡ (compute_paths P r policy done b >>= compute_paths P r policy rest) u)
          → continue x.0 (compute_paths P r policy (done ++ rest)) x.1
            ≡ continue
                (continue x.0 (compute_paths P r policy done) x.1).0
                (compute_paths P r policy rest)
                (continue x.0 (compute_paths P r policy done) x.1).1
      by_first (go b, u) ih = ih b u
      by_first (exit o, u) ih = refl

  module _ (v : View P) (L : IsLawful P v) (client : ScionClient P) (preference : String)
      (has_client : r.scion_client ≡ some client)
      (has_preference : policy.spec.preference ≡ some preference) (req : NamespacedName)
      (w : World P) (active : IsActive P r req w policy) where
    compute_path_failed :
        (peer : ScionClusterPeer) (ready : Bool) (u : World P) (e : P.Error)
        → (client peer.spec.remote_as preference u.daemon).0.failure ≡ some e
        → compute_path P r policy peer ready u ≡ (
          exit (returned no_requeue (some e)),
          record u { daemon = (client peer.spec.remote_as preference u.daemon).1 },
        )
    unfolding compute_path fetch
    compute_path_failed peer ready u e h = ground arith

    -- For an active policy with a client, a preference and the peers listed: if the rounds over the
    -- first peers went on and `FetchPath` fails for the next, the call returns that error with no
    -- requeue. The paths of the first peers are stored as answered, every other key and every
    -- condition is as it was, and no later peer is asked.
    pub reconcile_fetch_failed :
        (done rest : List ScionClusterPeer) (peer : ScionClusterPeer) (ready : Bool) (u : World P)
        (e : P.Error)
        → P.list_peers w.cluster ≡ ok (done ++ peer ∷ rest)
        → compute_paths P r policy done true w ≡ (go ready, u)
        → (client peer.spec.remote_as preference u.daemon).0.failure ≡ some e
        → (reconcile P r req w ≡ (
          returned no_requeue (some e),
          record u { daemon = (client peer.spec.remote_as preference u.daemon).1 },
        ))
          × ((k : NamespacedName)
              → v.path_at u.cluster k
                ≡ latest P policy k
                    (answers P client preference done w.daemon).0
                    (v.path_at w.cluster k))
          × ((k : NamespacedName) → v.conditions_at u.cluster k ≡ v.conditions_at w.cluster k)
    unfolding compute_paths
    reconcile_fetch_failed done rest peer ready u e listed loop h = (
      rw (
        reconcile_active P r req w policy active,
        reconcile_paths_listed P r policy (done ++ peer ∷ rest) w listed,
        compute_paths-append done (peer ∷ rest) true w,
        loop,
        compute_path_failed peer ready u e h,
      ),
      (compute_paths_lem P v L r policy client preference has_client has_preference done true ready
          w u loop).2,
      λ k. rw loop at (compute_paths-conditions P v L r policy done true w k),
    )
