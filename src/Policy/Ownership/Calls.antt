-- ===== src/Policy/Ownership/Calls.antt =====
-- The computed paths that a successful call leaves belong to its policy.
use cillion.Base.{
  String, string_eq, ◌≡◌, ◌≢◌, refl, sym, ap, ◌∙◌, inl, inr, Bool, true, none, some, List, [], ◌∷◌,
  ◌++◌, arith, All, subst,
}
use cillion.Api.{NamespacedName, same_key, ScionComputedPath, ScionClusterPeer}
use cillion.Platform.{Platform, ok, Fetched}
use cillion.Policy.Exec.{CtrlResult, returned, go, >>=-eq-go}
use cillion.Policy.{
  ScionClient, ScionPathPolicyReconciler, World, PathPolicy, fetch, mutate, new_computed_path,
  compute_path, compute_paths, reconcile,
}
use cillion.Policy.Loop.{Answers, answers, path_key}
use cillion.Policy.Outcomes.{IsActive, reconcile_active, reconcile_paths_listed, ends-loop}
use cillion.Policy.Keeps.{StoresKeep, compute_paths-Keeps, finish-Keeps}
use cillion.Policy.Ownership.{
  controller_of, controller_name, Objects, KeepsOwners, reconcile_keeps_taken,
}

All-middle :
    {A : Type 0} (Q : A → Type 0) (before later xs : List A) (x : A)
    → xs ≡ before ++ x ∷ later
    → All Q xs
    → Q x
All-middle Q before later xs x e h = by_before before (subst (All Q) e h)
  where
    by_before : (bs : List _) → All Q (bs ++ x ∷ later) → Q x
    by_before [] h = h.0
    by_before (b ∷ bs) h = by_before bs h.1

module _ (P : Platform) (at : Objects P) (K : KeepsOwners P at) (r : ScionPathPolicyReconciler P)
    (policy : PathPolicy P) (client : ScionClient P) (preference : String)
    (has_client : r.scion_client ≡ some client)
    (has_preference : policy.spec.preference ≡ some preference) where
  -- The key holds an object that the policy controls.
  abbrev pub Owned : NamespacedName → P.Cluster → Type 0
  Owned k c =
      (obj : ScionComputedPath) × (at c k ≡ some obj)
      × (controller_of obj.meta.owner_references ≡ some policy.meta.uid)
      × (controller_name obj.meta.owner_references ≡ some policy.meta.name)

  mutate-owner :
      (peer : ScionClusterPeer) (f : Fetched P.Error) (old new : ScionComputedPath)
      → mutate P r.scheme policy peer f old ≡ ok new
      → (controller_of new.meta.owner_references ≡ some policy.meta.uid)
        × (controller_name new.meta.owner_references ≡ some policy.meta.name)
  unfolding mutate
  mutate-owner peer f old new h =
      K.set_controller-owner r.scheme policy.meta old.meta new.meta (ground arith)

  Owned-update :
      (k : NamespacedName) (p : PathPolicy P) (c : P.Cluster)
      → Owned k c
      → Owned k (P.update_policy p c).1
  Owned-update k p c (obj, e, id, owner) = (obj, K.object-update p c k ∙ e, id, owner)

  Owned-update_status :
      (k : NamespacedName) (p : PathPolicy P) (c : P.Cluster)
      → Owned k c
      → Owned k (P.update_policy_status p c).1
  Owned-update_status k p c (obj, e, id, owner) = (obj, K.object-update_status p c k ∙ e, id, owner)

  Owned-stores :
      (k : NamespacedName)
      → StoresKeep P (Owned k) r (Owned-update k) (Owned-update_status k) policy
  Owned-stores k peer f c (obj, e, id, owner) =
      elim (K.object-create_or_update (new_computed_path P policy peer)
        (mutate P r.scheme policy peer f) c k) [
          | inl same ↦ (obj, same ∙ e, id, owner)
          | inr (new, made, key, stored) ↦
              let (id, owner) = mutate-owner peer f _ new made in (new, stored, id, owner)
        ]

  same_key_self : (k : NamespacedName) → same_key k k ≡ true
  same_key_self k = ground arith

  store-Owned :
      (peer : ScionClusterPeer) (f : Fetched P.Error) (c c' : P.Cluster)
      → P.create_or_update (new_computed_path P policy peer) (mutate P r.scheme policy peer f) c
        ≡ (none, c')
      → Owned (path_key P policy peer) c'
  store-Owned peer f c c' h =
      let (new, made, holds) =
        K.object-stored (new_computed_path P policy peer) (mutate P r.scheme policy peer f) c c'
          h in
      let k = path_key P policy peer in
      let (id, owner) = mutate-owner peer f _ new made in
      (new, holds k ∙ rw (same_key_self k) refl, id, owner)

  compute_path-Owned :
      (peer : ScionClusterPeer) (ready ready' : Bool) (w u : World P)
      → compute_path P r policy peer ready w ≡ (go ready', u)
      → let (f, d) = client peer.spec.remote_as preference w.daemon in
        (f.is_ready ≡ true → Owned (path_key P policy peer) u.cluster) × (u.daemon ≡ d)
  unfolding compute_path fetch
  compute_path-Owned peer ready ready' w u h = (
    λ is_ready.
        store-Owned peer (client peer.spec.remote_as preference w.daemon).0 w.cluster u.cluster
          (ground arith),
    ground arith,
  )

  -- Each ready answer has led to an object of the policy.
  abbrev pub AllOwned : Answers P → P.Cluster → Type 0
  AllOwned got c = All (λ (peer, f). f.is_ready ≡ true → Owned (path_key P policy peer) c) got

  All-map :
      (got : Answers P) (c c' : P.Cluster)
      → ((k : NamespacedName) → Owned k c → Owned k c')
      → AllOwned got c
      → AllOwned got c'
  All-map [] c c' h all = tt
  All-map ((peer, f) ∷ got) c c' h (o, all) =
      (λ is_ready. h (path_key P policy peer) (o is_ready), All-map got c c' h all)

  compute_paths-Owned :
      (peers : List ScionClusterPeer) (ready ready' : Bool) (w w' : World P)
      → compute_paths P r policy peers ready w ≡ (go ready', w')
      → AllOwned (answers P client preference peers w.daemon).0 w'.cluster
  unfolding compute_paths
  compute_paths-Owned [] ready ready' w w' h = tt
  compute_paths-Owned (peer ∷ peers) ready ready' w w' h =
      let (mid, u, first, rest) =
        >>=-eq-go (compute_path P r policy peer ready) (compute_paths P r policy peers) w w' ready'
          h in
      let (owned, moved) = compute_path-Owned peer ready mid w u first in
      let k = path_key P policy peer in
      (
        λ is_ready. rw rest at (
            compute_paths-Keeps P (Owned k) r (Owned-update k) (Owned-update_status k) policy
              (Owned-stores k) peers mid u (owned is_ready)),
        rw moved at (compute_paths-Owned peers mid ready' u w' rest),
      )

  module _ (req : NamespacedName) (w : World P) (peers : List ScionClusterPeer)
      (active : IsActive P r req w policy) (listed : P.list_peers w.cluster ≡ ok peers) where
    -- For an active policy with a client, a preference and the peers listed: after a call that
    -- returns no error, the computed path of every peer with a ready answer has the policy as its
    -- controller, so that the garbage collector drops it with the policy.
    pub reconcile-Owned :
        (res : CtrlResult) (w' : World P)
        → reconcile P r req w ≡ (returned res none, w')
        → AllOwned (answers P client preference peers w.daemon).0 w'.cluster
    reconcile-Owned res w' h =
        let (ready, u, loop, last) = ends-loop P r policy peers w w' res (
          rw
            (
              ← reconcile_paths_listed P r policy peers w listed,
              ← reconcile_active P r req w policy active,
            )
            h) in
        let kept = λ (k : NamespacedName) (i : Owned k u.cluster).
          subst (λ (v : World P). Owned k v.cluster) (ap (λ (x : _). x.1) last)
            (finish-Keeps P (Owned k) r (Owned-update k) (Owned-update_status k) policy
              (Owned-stores k) peers ready u i) in
        All-map (answers P client preference peers w.daemon).0 u.cluster w'.cluster kept
          (compute_paths-Owned peers true ready w u loop)

    -- If in the way of an active policy, with a client, a preference and the peers listed, there is
    -- a computed path whose controller has another name than the policy, under the key of a peer
    -- with a ready answer: then no call returns without an error, and each leaves that path exactly
    -- as it is.
    pub reconcile_fails_on_taken :
        (before later : Answers P) (peer : ScionClusterPeer) (f : Fetched P.Error)
        (obj : ScionComputedPath) (name : String)
        → (answers P client preference peers w.daemon).0 ≡ before ++ (peer, f) ∷ later
        → f.is_ready ≡ true
        → at w.cluster (path_key P policy peer) ≡ some obj
        → controller_name obj.meta.owner_references ≡ some name
        → name ≢ policy.meta.name
        → ((res : CtrlResult) (w' : World P) → reconcile P r req w ≢ (returned res none, w'))
          × (at (reconcile P r req w).1.cluster (path_key P policy peer) ≡ some obj)
    reconcile_fails_on_taken before later peer f obj name got is_ready holds controlled other =
        let only : (p : PathPolicy P) → P.get_policy req w.cluster ≡ ok p → name ≢ p.meta.name =
          λ p found e. other (e ∙ cc (found, active.found)) in
        let stays =
          reconcile_keeps_taken P at K r req w (path_key P policy peer) obj name holds controlled
            only in
        (
          λ res w' h.
              let (now, here, _, owner) =
                All-middle _ before later _ (peer, f) got (reconcile-Owned res w' h) is_ready in
              let left : at w'.cluster (path_key P policy peer) ≡ some obj = rw h at stays in
              let same : obj ≡ now = cc in
              let both : some name ≡ some policy.meta.name =
                sym controlled
                ∙ (ap (λ (o : ScionComputedPath). controller_name o.meta.owner_references) same
                    ∙ owner) in
              other cc,
          stays,
        )
