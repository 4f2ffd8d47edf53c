-- ===== src/Policy/Provenance.antt =====
-- Where a computed path comes from. The loop stores a path only from a ready answer of the SCION
-- service, however it ends.
pub mod Calls
pub mod History
use cillion.Base.{
  String, if◌then◌else◌, ◌≡◌, refl, ap, sym, ◌∙◌, ◌⊎◌, inl, inr, Bool, true, false, ◌&&◌, Option,
  none, some, List, [], ◌∷◌, arith, Option-cases, Bool-cases,
}
use mathlib.Core.List.{Mem, mem-cons_self, mem-cons_of_mem}
use cillion.Api.{
  NamespacedName, same_key, key_of, ScionComputedPath, ScionComputedPathSpec, ScionClusterPeer,
}
use cillion.Platform.{Platform, View, IsLawful, Result, ok, err, Fetched}
use cillion.Policy.Exec.{Flow, go, exit, Outcome, continue, ◌>>=◌, ends}
use cillion.Policy.{
  ScionClient, ScionPathPolicyReconciler, World, PathPolicy, fetch, mutate, new_computed_path,
  path_spec, compute_path, compute_paths, finish, reconcile_deleted, add_finalizer, reconcile_paths,
  reconcile_policy, reconcile, with_ready, cilion_finalizer,
}
use cillion.Policy.Keeps.{compute_path-Stores}
use cillion.Policy.Loop.{path_key, mutate-spec}
use cillion.Policy.Outcomes.{IsActive, reconcile_active, reconcile_paths_listed}

module _ (P : Platform) (v : View P) where
  -- A write of a computed path, also one with an error, leaves what a key holds or puts a result of
  -- the callback there, under the key of the object alone.
  pub record WritesResults : Type 0 where
    pub path-create_or_update_any :
        (o : ScionComputedPath) (f : ScionComputedPath → Result P.Error ScionComputedPath)
        (c : P.Cluster) (k : NamespacedName)
        → (v.path_at (P.create_or_update o f c).1 k ≡ v.path_at c k)
          ⊎ ((old new : ScionComputedPath) × (f old ≡ ok new)
              × (same_key k (key_of o.meta) ≡ true)
              × (v.path_at (P.create_or_update o f c).1 k ≡ some new.spec))

  module _ (L : IsLawful P v) (writes : WritesResults) (r : ScionPathPolicyReconciler P)
      (policy : PathPolicy P) where
    -- The path is that of a ready answer for the peer, under its key.
    pub record Answered (peer : ScionClusterPeer) (k : NamespacedName) (s : ScionComputedPathSpec)
        : Type 0 where
      pub client : ScionClient P
      pub preference : String
      pub daemon : P.Daemon
      pub has_client : r.scion_client ≡ some client
      pub has_preference : policy.spec.preference ≡ some preference
      pub key : same_key k (path_key P policy peer) ≡ true
      pub is_ready : (client peer.spec.remote_as preference daemon).0.is_ready ≡ true
      pub no_failure : (client peer.spec.remote_as preference daemon).0.failure ≡ none
      pub spec : s ≡ path_spec P policy peer (client peer.spec.remote_as preference daemon).0

    -- A key holds what it held before, or the path of a ready answer for the peer.
    abbrev pub Explained : NamespacedName → ScionClusterPeer → P.Cluster → P.Cluster → Type 0
    Explained k peer c c' =
        (v.path_at c' k ≡ v.path_at c k)
        ⊎ ((s : ScionComputedPathSpec) × (v.path_at c' k ≡ some s) × Answered peer k s)

    compute_path-Explained :
        (peer : ScionClusterPeer) (ready : Bool) (w : World P) (k : NamespacedName)
        → Explained k peer w.cluster (compute_path P r policy peer ready w).1.cluster
    compute_path-Explained peer ready w k = elim (compute_path-Stores P r policy peer ready w) [
      | inl same ↦ inl (ap (λ (c : P.Cluster). v.path_at c k) same)
      | inr s ↦
          let f = (s.client peer.spec.remote_as s.preference w.daemon).0 in
          let o = new_computed_path P policy peer in
          let change = mutate P r.scheme policy peer f in
          elim (writes.path-create_or_update_any o change w.cluster k) [
            | inl same ↦ inl (ap (λ (c : P.Cluster). v.path_at c k) s.stored ∙ same)
            | inr (old, new, changed, key, stored) ↦ inr (
              new.spec,
              ap (λ (c : P.Cluster). v.path_at c k) s.stored ∙ stored,
              record {
                client = s.client;
                preference = s.preference;
                daemon = w.daemon;
                has_client = s.has_client;
                has_preference = s.has_preference;
                key = key;
                is_ready = s.is_ready;
                no_failure = s.no_failure;
                spec = mutate-spec P r.scheme policy peer f old new changed;
              },
            )
          ]
    ]

    -- The loop: a key holds what it held before, or the path of a ready answer for some peer.
    abbrev pub ExplainedBy : NamespacedName → List ScionClusterPeer → P.Cluster → P.Cluster → Type 0
    ExplainedBy k peers c c' =
        (v.path_at c' k ≡ v.path_at c k)
        ⊎ ((peer : ScionClusterPeer) × (s : ScionComputedPathSpec) × Mem peer peers
            × (v.path_at c' k ≡ some s)
            × Answered peer k s)

    later :
        (k : NamespacedName) (peer : ScionClusterPeer) (peers : List ScionClusterPeer)
        (c mid c' : P.Cluster)
        → Explained k peer c mid
        → ExplainedBy k peers mid c'
        → ExplainedBy k (peer ∷ peers) c c'
    later k peer peers c mid c' a (inr (q, s, m, e, ans)) =
        inr (q, s, mem-cons_of_mem peer m, e, ans)
    later k peer peers c mid c' (inl same) (inl same') = inl (same' ∙ same)
    later k peer peers c mid c' (inr (s, e, ans)) (inl same') =
        inr (peer, s, mem-cons_self, same' ∙ e, ans)

    compute_paths-Explained :
        (peers : List ScionClusterPeer) (ready : Bool) (w : World P) (k : NamespacedName)
        → ExplainedBy k peers w.cluster (compute_paths P r policy peers ready w).1.cluster
    unfolding compute_paths
    compute_paths-Explained [] ready w k = inl refl
    compute_paths-Explained (peer ∷ peers) ready w k =
        by_first (compute_path P r policy peer ready w) (compute_path-Explained peer ready w k)
          (λ b u. compute_paths-Explained peers b u k)
      where
        by_first :
            (x : Flow P.Error Bool × World P)
            → Explained k peer w.cluster x.1.cluster
            → ((b : Bool) (u : World P)
                → ExplainedBy k peers u.cluster (compute_paths P r policy peers b u).1.cluster)
            → ExplainedBy k
                (peer ∷ peers)
                w.cluster
                (continue x.0 (compute_paths P r policy peers) x.1).1.cluster
        by_first (go b, u) a rest = later k peer peers _ _ _ a (rest b u)
        by_first (exit o, u) a rest = later k peer peers _ _ _ a (inl refl)

    finish_path :
        (peers : List ScionClusterPeer) (ready : Bool) (u : World P) (k : NamespacedName)
        → v.path_at (ends (finish P r policy peers ready u)).1.cluster k ≡ v.path_at u.cluster k
    unfolding finish
    finish_path peers ready u k =
        ground (arith, L.path-update_status (with_ready P r policy peers) u.cluster k)

    pub listed-Explained :
        (peers : List ScionClusterPeer) (w : World P) (k : NamespacedName)
        → ExplainedBy k peers w.cluster
            (ends ((compute_paths P r policy peers true >>= finish P r policy peers) w)).1.cluster
    listed-Explained peers w k =
        by_loop (compute_paths P r policy peers true w) (compute_paths-Explained peers true w k)
      where
        by_loop :
            (x : Flow P.Error Bool × World P)
            → ExplainedBy k peers w.cluster x.1.cluster
            → ExplainedBy k peers w.cluster
                (ends (continue x.0 (finish P r policy peers) x.1)).1.cluster
        by_loop (go b, u) (inl same) = inl (finish_path peers b u k ∙ same)
        by_loop (go b, u) (inr (q, s, m, e, a)) = inr (q, s, m, finish_path peers b u k ∙ e, a)
        by_loop (exit o, u) a = a
