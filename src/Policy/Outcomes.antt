-- ===== src/Policy/Outcomes.antt =====
-- How `Reconcile` ends for a policy that exists, is not being deleted and has the finalizer, and
-- what it leaves in the API server.
use cillion.Base.{
  ◌*◌, String, ◌≡◌, refl, ◌∙◌, inl, inr, Bool, true, false, none, some, List, [], ◌∷◌, arith,
}
use cillion.Api.{key_of, NamespacedName, ScionClusterPeer}
use cillion.Platform.{Platform, View, IsLawful, ok}
use cillion.Policy.Exec.{
  CtrlResult, Outcome, returned, panicked, Flow, go, exit, continue, ◌>>=◌, >>=-eq-exit, ends,
}
use cillion.Policy.{
  ScionClient, ScionPathPolicyReconciler, World, PathPolicy, cilion_finalizer, second, with_ready,
  ready_condition, fetch, compute_path, compute_paths, finish, reconcile_paths, reconcile_policy,
  reconcile,
}
use cillion.Policy.Loop.{answers, all_ready, latest, Answers, compute_paths_lem}

module _ (P : Platform) (r : ScionPathPolicyReconciler P) where
  -- The request is for a stored policy with the finalizer that is not being deleted.
  pub record IsActive (req : NamespacedName) (w : World P) (policy : PathPolicy P) : Type 0 where
    pub found : P.get_policy req w.cluster ≡ ok policy
    pub kept : P.is_zero policy.meta.deletion_timestamp ≡ true
    pub finalized : P.contains_finalizer policy.meta cilion_finalizer ≡ true

  pub reconcile_active :
      (req : NamespacedName) (w : World P) (policy : PathPolicy P)
      → IsActive req w policy
      → reconcile P r req w ≡ ends (reconcile_paths P r policy w)
  unfolding reconcile reconcile_policy
  reconcile_active req w policy a = ground arith

  abbrev pub failed : Outcome P.Error → Bool
  failed (returned x none) = false
  failed (returned x (some e)) = true
  failed panicked = true

  compute_path_exit :
      (policy : PathPolicy P) (peer : ScionClusterPeer) (ready : Bool) (w w' : World P)
      (o : Outcome P.Error)
      → compute_path P r policy peer ready w ≡ (exit o, w')
      → failed o ≡ true
  unfolding compute_path fetch
  compute_path_exit policy peer ready w w' o h = ground arith

  -- The loop is left early only with an error or by a panic.
  pub compute_paths_exit :
      (policy : PathPolicy P) (peers : List ScionClusterPeer) (ready : Bool) (w w' : World P)
      (o : Outcome P.Error)
      → compute_paths P r policy peers ready w ≡ (exit o, w')
      → failed o ≡ true
  unfolding compute_paths
  compute_paths_exit policy [] ready w w' o h = ground arith
  compute_paths_exit policy (peer ∷ peers) ready w w' o h =
      let one = compute_path P r policy peer ready in
      let rest = compute_paths P r policy peers in
      elim (>>=-eq-exit one rest w w' o h) [
        | inl e ↦ compute_path_exit policy peer ready w w' o e
        | inr (b, u, e, k) ↦ compute_paths_exit policy peers b u w' o k
      ]

  pub reconcile_paths_listed :
      (policy : PathPolicy P) (peers : List ScionClusterPeer) (w : World P)
      → P.list_peers w.cluster ≡ ok peers
      → reconcile_paths P r policy w
        ≡ (compute_paths P r policy peers true >>= finish P r policy peers) w
  unfolding reconcile_paths
  reconcile_paths_listed policy peers w listed = ground arith

  -- A call that returns no error has run the loop to its end.
  pub ends-loop :
      (policy : PathPolicy P) (peers : List ScionClusterPeer) (w w' : World P) (res : CtrlResult)
      → ends ((compute_paths P r policy peers true >>= finish P r policy peers) w)
        ≡ (returned res none, w')
      → (ready : Bool) × (u : World P) × (compute_paths P r policy peers true w ≡ (go ready, u))
        × (ends (finish P r policy peers ready u) ≡ (returned res none, w'))
  ends-loop policy peers w w' res h = by_loop (compute_paths P r policy peers true w) refl h
    where
      by_loop :
          (x : Flow P.Error Bool × World P)
          → compute_paths P r policy peers true w ≡ x
          → ends (continue x.0 (finish P r policy peers) x.1) ≡ (returned res none, w')
          → (ready : Bool) × (u : World P) × (compute_paths P r policy peers true w ≡ (go ready, u))
            × (ends (finish P r policy peers ready u) ≡ (returned res none, w'))
      by_loop (go b, u) e k = (b, u, e, k)
      by_loop (exit o, u) e k =
          absurd (ground (arith, compute_paths_exit policy peers true w u o e))

module _ (P : Platform) (v : View P) (L : IsLawful P v) (r : ScionPathPolicyReconciler P) where
  compute_path-conditions :
      (policy : PathPolicy P) (peer : ScionClusterPeer) (ready : Bool) (w : World P)
      (k : NamespacedName)
      → v.conditions_at (compute_path P r policy peer ready w).1.cluster k
        ≡ v.conditions_at w.cluster k
  unfolding compute_path fetch
  compute_path-conditions policy peer ready w k = grind (arith, L.conditions-create_or_update)

  pub compute_paths-conditions :
      (policy : PathPolicy P) (peers : List ScionClusterPeer) (ready : Bool) (w : World P)
      (k : NamespacedName)
      → v.conditions_at (compute_paths P r policy peers ready w).1.cluster k
        ≡ v.conditions_at w.cluster k
  unfolding compute_paths
  compute_paths-conditions policy [] ready w k = refl
  compute_paths-conditions policy (peer ∷ peers) ready w k =
      by_first (compute_path P r policy peer ready w)
        (compute_path-conditions policy peer ready w k)
        (λ b u. compute_paths-conditions policy peers b u k)
    where
      by_first :
          (x : Flow P.Error Bool × World P)
          → v.conditions_at x.1.cluster k ≡ v.conditions_at w.cluster k
          → ((b : Bool) (u : World P)
              → v.conditions_at (compute_paths P r policy peers b u).1.cluster k
                ≡ v.conditions_at u.cluster k)
          → v.conditions_at (continue x.0 (compute_paths P r policy peers) x.1).1.cluster k
            ≡ v.conditions_at w.cluster k
      by_first (go b, u) e ih = ih b u ∙ e
      by_first (exit o, u) e ih = e

  -- The delay and the conditions in the cluster `c'`, where the call began in `c`.
  abbrev pub Settled :
      PathPolicy P → List ScionClusterPeer → CtrlResult → P.Cluster → P.Cluster → Bool → Type 0
  Settled policy peers res c c' true =
      (res.requeue_after ≡ 0)
      × (v.conditions_at c' (key_of policy.meta)
          ≡ some
              (P.set_status_condition policy.status.conditions (ready_condition P r policy peers)))
  Settled policy peers res c c' false =
      (res.requeue_after ≡ 10 * second)
      × ((k : NamespacedName) → v.conditions_at c' k ≡ v.conditions_at c k)

  Settled-from :
      (policy : PathPolicy P) (peers : List ScionClusterPeer) (res : CtrlResult)
      (c u c' : P.Cluster) (ready : Bool)
      → ((k : NamespacedName) → v.conditions_at u k ≡ v.conditions_at c k)
      → Settled policy peers res u c' ready
      → Settled policy peers res c c' ready
  Settled-from policy peers res c u c' true same s = s
  Settled-from policy peers res c u c' false same s = (s.0, λ k. s.1 k ∙ same k)

  finish_lem :
      (policy : PathPolicy P) (peers : List ScionClusterPeer) (ready : Bool) (u w' : World P)
      (res : CtrlResult)
      → ends (finish P r policy peers ready u) ≡ (returned res none, w')
      → ((k : NamespacedName) → v.path_at w'.cluster k ≡ v.path_at u.cluster k)
        × Settled policy peers res u.cluster w'.cluster ready
  unfolding finish
  finish_lem policy peers false u w' res h = (λ k. ground arith, (ground arith, λ k. ground arith))
  finish_lem policy peers true u w' res h = (
    λ k. ground (arith, L.path-update_status (with_ready P r policy peers) u.cluster k),
    (
      ground arith,
      ground (arith, L.conditions-update_status (with_ready P r policy peers) u.cluster w'.cluster),
    ),
  )

  module _ (req : NamespacedName) (w : World P) (policy : PathPolicy P)
      (peers : List ScionClusterPeer) (client : ScionClient P) (preference : String)
      (active : IsActive P r req w policy) (listed : P.list_peers w.cluster ≡ ok peers)
      (has_client : r.scion_client ≡ some client)
      (has_preference : policy.spec.preference ≡ some preference) where
    abbrev pub got : Answers P
    got = (answers P client preference peers w.daemon).0

    -- For an active policy with a client, a preference and the peers listed: a call that returns no
    -- error has stored for every key what the answers of the SCION service say. If every answer was
    -- ready it asks for no requeue and the policy's conditions are the old ones with "Ready" set;
    -- if not, it asks for a requeue after 10 seconds and no condition of any policy has changed.
    pub reconcile_refines :
        (res : CtrlResult) (w' : World P)
        → reconcile P r req w ≡ (returned res none, w')
        → ((k : NamespacedName)
            → v.path_at w'.cluster k ≡ latest P policy k got (v.path_at w.cluster k))
          × Settled policy peers res w.cluster w'.cluster (all_ready P got)
    reconcile_refines res w' h =
        let (ready, u, loop, last) = ends-loop P r policy peers w w' res (
          rw
            (
              ← reconcile_paths_listed P r policy peers w listed,
              ← reconcile_active P r req w policy active,
            )
            h) in
        let (flag, moved, wrote) =
          compute_paths_lem P v L r policy client preference has_client has_preference peers true
            ready w u loop in
        let (kept, settled) = finish_lem policy peers ready u w' res last in
        let same =
          λ (k : NamespacedName). rw loop at (compute_paths-conditions policy peers true w k) in
        (
          λ k. kept k ∙ wrote k,
          rw (← flag)
              (Settled-from policy peers res w.cluster u.cluster w'.cluster ready same settled),
        )
