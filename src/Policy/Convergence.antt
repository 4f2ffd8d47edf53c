-- ===== src/Policy/Convergence.antt =====
-- From a new policy to its paths in two calls of `Reconcile`.
use cillion.Base.{
  ◌*◌, String, string_eq, if◌then◌else◌, ◌≡◌, refl, ap, sym, ◌∙◌, true, false, none, some, List,
  arith,
}
use cillion.Api.{NamespacedName, ScionClusterPeer, key_of}
use cillion.Platform.{Platform, View, IsLawful, ok}
use cillion.Policy.Exec.{returned}
use cillion.Policy.{
  ScionClient, ScionPathPolicyReconciler, World, PathPolicy, cilion_finalizer, second, done,
  add_finalizer, reconcile_policy, reconcile,
}
use cillion.Policy.Loop.{answers, all_ready, latest}
use cillion.Policy.Outcomes.{IsActive, reconcile_refines}
use cillion.Policy.Finalizer.{with_finalizer, key-with_finalizer}
use cillion.Policy.Paths.{latest_same}
use cillion.Policy.Success.{CallTaken, AllAnswered, reconcile_succeeds}

module _ (P : Platform) where
  -- A policy that is updated in its finalizers alone is read back as it was written, its status
  -- aside, and the update of a policy leaves the peers alone.
  pub record KeepsPolicies : Type 0 where
    pub get-update :
        (old p : PathPolicy P) (c c' : P.Cluster)
        → P.get_policy (key_of p.meta) c ≡ ok old
        → p.meta ≡ record old.meta { finalizers = p.meta.finalizers }
        → p.spec ≡ old.spec
        → P.update_policy p c ≡ (none, c')
        → P.is_zero p.meta.deletion_timestamp ≡ true
        → (p' : PathPolicy P) × (P.get_policy (key_of p.meta) c' ≡ ok p')
          × (p'.meta ≡ p.meta)
          × (p'.spec ≡ p.spec)
    pub peers-update :
        (p : PathPolicy P) (c : P.Cluster) → P.list_peers (P.update_policy p c).1 ≡ P.list_peers c

  module _ (v : View P) (L : IsLawful P v) (keeps : KeepsPolicies) (r : ScionPathPolicyReconciler P)
      (client : ScionClient P) (has_client : r.scion_client ≡ some client) (req : NamespacedName)
      (w : World P) (policy : PathPolicy P) (found : P.get_policy req w.cluster ≡ ok policy)
      (kept : P.is_zero policy.meta.deletion_timestamp ≡ true)
      (lacks : P.contains_finalizer policy.meta cilion_finalizer ≡ false)
      (updated : (P.update_policy (with_finalizer P v L r req w policy found) w.cluster).0
        ≡ none) where
    abbrev finalized : PathPolicy P
    finalized = with_finalizer P v L r req w policy found

    abbrev pub first : World P
    first = record w { cluster = (P.update_policy finalized w.cluster).1 }

    first_call : reconcile P r req w ≡ (done, first)
    unfolding reconcile reconcile_policy add_finalizer
    first_call = ground (arith, updated)

    finalized_kept : P.is_zero finalized.meta.deletion_timestamp ≡ true
    finalized_kept = rw (L.add_finalizer_rest policy.meta cilion_finalizer) kept

    finalized_contains : P.contains_finalizer finalized.meta cilion_finalizer ≡ true
    finalized_contains = ground (
      arith,
      L.contains_finalizer_lem finalized.meta cilion_finalizer,
      L.contains-add_finalizer policy.meta cilion_finalizer cilion_finalizer,
    )

    read_back :
        (p' : PathPolicy P) × IsActive P r req first p'
        × (p'.meta ≡ finalized.meta)
        × (p'.spec ≡ policy.spec)
    read_back =
        let (p', got, meta, spec) =
          keeps.get-update policy finalized w.cluster first.cluster
            (rw (key-with_finalizer P v L r req w policy found) found)
            (L.add_finalizer_rest policy.meta cilion_finalizer) refl (ground (arith, updated))
            finalized_kept in
        (
          p',
          record {
            found = rw (key-with_finalizer P v L r req w policy found) at got;
            kept = rw meta finalized_kept;
            finalized = rw meta finalized_contains;
          },
          meta,
          spec,
        )

    -- For a new policy with a client, a preference and the peers listed, with a SCION service that
    -- answers without an error, where the server takes the update with the finalizer and the writes
    -- of the second call: the first call ends well and asks for no requeue; the second ends without
    -- an error too, asks for a requeue after 10 seconds exactly if some answer was not ready, and has
    -- stored the path that the answers say under every key.
    pub reconcile_converges :
        (preference : String) (peers : List ScionClusterPeer)
        → policy.spec.preference ≡ some preference
        → P.list_peers w.cluster ≡ ok peers
        → let got = (answers P client preference peers w.daemon).0 in
          AllAnswered P got
          → ((p' : PathPolicy P)
              → P.get_policy req first.cluster ≡ ok p'
              → CallTaken P r p' client preference peers first)
          → (w1 w2 : World P) × (reconcile P r req w ≡ (done, w1))
            × (reconcile P r req w1 ≡ (
              returned (record { requeue_after = if all_ready P got then 0 else 10 * second }) none,
              w2,
            ))
            × ((k : NamespacedName)
                → v.path_at w2.cluster k ≡ latest P policy k got (v.path_at w.cluster k))
    reconcile_converges preference peers has_preference listed answered taken =
        let (p', active, meta, spec) = read_back in
        let preferred = ap (λ (s : _). s.preference) spec ∙ has_preference in
        let listed' = keeps.peers-update finalized w.cluster ∙ listed in
        let (w2, run) =
          reconcile_succeeds P r p' client preference has_client preferred req first peers active
            listed' answered (taken p' active.found) in
        let wrote =
          (reconcile_refines P v L r req first p' peers client preference active listed' has_client
            preferred _ w2 run).0 in
        let got = (answers P client preference peers w.daemon).0 in
        let key =
          ap key_of meta
          ∙ key-with_finalizer P v L r req w policy found
          ∙ sym (L.get-key req w.cluster policy found) in
        (
          first,
          w2,
          first_call,
          run,
          λ k.
              wrote k
              ∙ latest_same P p' policy k got _ key
              ∙ ap (latest P policy k got) (L.path-update finalized w.cluster k),
        )
