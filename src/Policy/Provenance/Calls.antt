-- ===== src/Policy/Provenance/Calls.antt =====
-- Where a computed path comes from: the same of a whole call of `Reconcile`.
use cillion.Base.{◌≡◌, refl, ap, ◌⊎◌, inl, inr, true, false, some, List, arith, Bool-cases}
use mathlib.Core.List.{Mem}
use cillion.Api.{NamespacedName, ScionComputedPathSpec, ScionClusterPeer}
use cillion.Platform.{Platform, View, IsLawful, Result, ok, err}
use cillion.Policy.Exec.{ends}
use cillion.Policy.{
  ScionPathPolicyReconciler, World, PathPolicy, reconcile_deleted, add_finalizer, reconcile_paths,
  reconcile_policy, reconcile, cilion_finalizer,
}
use cillion.Policy.Keeps.{reconcile_found, reconcile_missing}
use cillion.Policy.Outcomes.{IsActive, reconcile_active, reconcile_paths_listed}
use cillion.Policy.Provenance.{WritesResults, Answered, listed-Explained}

module _ (P : Platform) (v : View P) where
  module _ (L : IsLawful P v) (writes : WritesResults P v) (r : ScionPathPolicyReconciler P)
      (req : NamespacedName) (w : World P) (k : NamespacedName) where
    -- The path comes from a ready answer for a listed peer, and the policy of the request is active.
    pub record Source (s : ScionComputedPathSpec) : Type 0 where
      pub policy : PathPolicy P
      pub peers : List ScionClusterPeer
      pub peer : ScionClusterPeer
      pub active : IsActive P r req w policy
      pub listed : P.list_peers w.cluster ≡ ok peers
      pub is_listed : Mem peer peers
      pub answered : Answered P v L writes r policy peer k s

    abbrev pub Sourced : P.Cluster → Type 0
    Sourced c' =
        (v.path_at c' k ≡ v.path_at w.cluster k)
        ⊎ ((s : ScionComputedPathSpec) × (v.path_at c' k ≡ some s) × Source s)

    unlisted :
        (policy : PathPolicy P) (e : P.Error)
        → P.list_peers w.cluster ≡ err e
        → (ends (reconcile_paths P r policy w)).1 ≡ w
    unfolding reconcile_paths
    unlisted policy e failed = ground arith

    Sourced-active :
        (policy : PathPolicy P)
        → IsActive P r req w policy
        → Sourced (ends (reconcile_paths P r policy w)).1.cluster
    Sourced-active policy a = by_list (P.list_peers w.cluster) refl
      where
        by_list :
            (x : Result P.Error (List ScionClusterPeer))
            → P.list_peers w.cluster ≡ x
            → Sourced (ends (reconcile_paths P r policy w)).1.cluster
        by_list (err e) failed =
            inl (ap (λ (u : World P). v.path_at u.cluster k) (unlisted policy e failed))
        by_list (ok peers) listed =
            rw (reconcile_paths_listed P r policy peers w listed)
              (elim (listed-Explained P v L writes r policy peers w k) [
                | inl same ↦ inl same
                | inr (peer, s, m, e, answered) ↦ inr (
                  s,
                  e,
                  record {
                    policy = policy;
                    peers = peers;
                    peer = peer;
                    active = a;
                    listed = listed;
                    is_listed = m;
                    answered = answered;
                  },
                )
              ])

    unfinished :
        (policy : PathPolicy P)
        → P.is_zero policy.meta.deletion_timestamp ≡ false
        → v.path_at (ends (reconcile_policy P r policy w)).1.cluster k ≡ v.path_at w.cluster k
    unfolding reconcile_policy reconcile_deleted
    unfinished policy gone =
        let without = record policy { meta = P.remove_finalizer policy.meta cilion_finalizer } in
        ground (arith, L.path-update without w.cluster k)

    unstarted :
        (policy : PathPolicy P)
        → P.is_zero policy.meta.deletion_timestamp ≡ true
        → P.contains_finalizer policy.meta cilion_finalizer ≡ false
        → v.path_at (ends (reconcile_policy P r policy w)).1.cluster k ≡ v.path_at w.cluster k
    unfolding reconcile_policy add_finalizer
    unstarted policy kept lacks =
        let finalized = record policy { meta = P.add_finalizer policy.meta cilion_finalizer } in
        ground (arith, L.path-update finalized w.cluster k)

    -- Whatever a call returns, also if it ends with an error or panics: every key holds the
    -- computed path that it held before, or one made of a ready answer that the SCION service
    -- gives, in some state of it, for a listed peer and the policy's preference; then the policy of
    -- the request is stored, is not being deleted and has the finalizer.
    pub reconcile-Sourced : Sourced (reconcile P r req w).1.cluster
    reconcile-Sourced = by_policy (P.get_policy req w.cluster) refl
      where
        by_policy :
            (x : Result P.Error (PathPolicy P))
            → P.get_policy req w.cluster ≡ x
            → Sourced (reconcile P r req w).1.cluster
        by_policy (err e) missing =
            inl
              (ap (λ (u : World P). v.path_at u.cluster k) (reconcile_missing P r req w e missing))
        by_policy (ok policy) found = elim (Bool-cases (P.is_zero policy.meta.deletion_timestamp)) [
          | inr gone ↦ inl (rw (reconcile_found P r req w policy found) (unfinished policy gone))
          | inl kept ↦ elim (Bool-cases (P.contains_finalizer policy.meta cilion_finalizer)) [
            | inr lacks ↦
                inl (rw (reconcile_found P r req w policy found) (unstarted policy kept lacks))
            | inl has ↦
                let a : IsActive P r req w policy = record {
                  found = found;
                  kept = kept;
                  finalized = has;
                } in
                rw (reconcile_active P r req w policy a) (Sourced-active policy a)
          ]
        ]
