-- ===== src/Policy/Keeps.antt =====
-- What a call of `Reconcile` keeps, however it ends: a rule for each way to put its actions
-- together, and their use on the body.
use cillion.Base.{
  String, ◌⊎◌, inl, inr, Option-cases, Bool-cases, if◌then◌else◌, ◌≡◌, refl, sym, subst, arith,
  Bool, true, false, not, Option, none, some, List, [], ◌∷◌,
}
use cillion.Api.{NamespacedName, ScionClusterPeer}
use cillion.Platform.{Platform, Result, ok, err, Fetched}
use cillion.Policy.Exec.{Flow, go, exit, Outcome, continue, ◌>>=◌, ends}
use cillion.Policy.{
  ScionClient, cilion_finalizer, ScionPathPolicyReconciler, World, PathPolicy, Action, read, write,
  fetch, mutate, new_computed_path, with_ready, compute_path, compute_paths, finish,
  reconcile_deleted, add_finalizer, reconcile_paths, reconcile_policy, reconcile,
}

module _ (P : Platform) (r : ScionPathPolicyReconciler P) (req : NamespacedName) (w : World P) where
  pub reconcile_found :
      (policy : PathPolicy P)
      → P.get_policy req w.cluster ≡ ok policy
      → reconcile P r req w ≡ ends (reconcile_policy P r policy w)
  unfolding reconcile
  reconcile_found policy found = ground arith

  pub reconcile_missing :
      (e : P.Error) → P.get_policy req w.cluster ≡ err e → (reconcile P r req w).1 ≡ w
  unfolding reconcile
  reconcile_missing e missing = ground arith

module _ (P : Platform) (r : ScionPathPolicyReconciler P) (policy : PathPolicy P) where
  -- The store that a round of the loop makes, if it makes one: for a ready answer.
  pub record Stores (peer : ScionClusterPeer) (w : World P) (c : P.Cluster) : Type 0 where
    pub client : ScionClient P
    pub preference : String
    pub has_client : r.scion_client ≡ some client
    pub has_preference : policy.spec.preference ≡ some preference
    pub no_failure : (client peer.spec.remote_as preference w.daemon).0.failure ≡ none
    pub is_ready : (client peer.spec.remote_as preference w.daemon).0.is_ready ≡ true
    pub stored :
        let f = (client peer.spec.remote_as preference w.daemon).0 in
        c
        ≡ (P.create_or_update
            (new_computed_path P policy peer)
            (mutate P r.scheme policy peer f)
            w.cluster).1

  pub compute_path-Stores :
      (peer : ScionClusterPeer) (ready : Bool) (w : World P)
      → ((compute_path P r policy peer ready w).1.cluster ≡ w.cluster)
        ⊎ Stores peer w (compute_path P r policy peer ready w).1.cluster
  unfolding compute_path fetch
  compute_path-Stores peer ready w = elim (Option-cases r.scion_client) [
    | inl e ↦ inl (ground arith)
    | inr (client, has_client) ↦ elim (Option-cases policy.spec.preference) [
      | inl e ↦ inl (ground arith)
      | inr (preference, has_preference) ↦
          let f = (client peer.spec.remote_as preference w.daemon).0 in
          elim (Option-cases f.failure) [
            | inr (e, failed) ↦ inl (ground arith)
            | inl no_failure ↦ elim (Bool-cases f.is_ready) [
              | inr not_ready ↦ inl (ground arith)
              | inl is_ready ↦ inr (record {
                client = client;
                preference = preference;
                has_client = has_client;
                has_preference = has_preference;
                no_failure = no_failure;
                is_ready = is_ready;
                stored = ground arith;
              })
            ]
          ]
    ]
  ]

module _ (P : Platform) (I : P.Cluster → Type 0) where
  abbrev pub Keeps : {A : Type 0} → Action P A → Type 0
  Keeps m = (w : World P) → I w.cluster → I (m w).1.cluster

  >>=-Keeps :
      {A B : Type 0} (m : Action P A) (f : A → Action P B)
      → Keeps m
      → ((a : A) → Keeps (f a))
      → Keeps (m >>= f)
  >>=-Keeps {A} {B} m f h k w i = by_flow (m w) (h w i)
    where
      by_flow : (x : Flow P.Error A × World P) → I x.1.cluster → I (continue x.0 f x.1).1.cluster
      by_flow (go a, u) j = k a u j
      by_flow (exit o, u) j = j

  if-Keeps :
      {A : Type 0} (b : Bool) (m k : Action P A) → Keeps m → Keeps k → Keeps (if b then m else k)
  if-Keeps true m k h j = h
  if-Keeps false m k h j = j

  read_world : {A : Type 0} (f : P.Cluster → Result P.Error A) (w : World P) → (read P f w).1 ≡ w
  unfolding read
  read_world f w = ground arith

  read-Keeps : {A : Type 0} (f : P.Cluster → Result P.Error A) → Keeps (read P f)
  read-Keeps f w i = subst (λ (u : World P). I u.cluster) (sym (read_world f w)) i

  write_cluster :
      (f : P.Cluster → Option P.Error × P.Cluster) (w : World P)
      → (write P f w).1.cluster ≡ (f w.cluster).1
  unfolding write
  write_cluster f w = ground arith

  module _ (r : ScionPathPolicyReconciler P)
      (updates : (p : PathPolicy P) (c : P.Cluster) → I c → I (P.update_policy p c).1)
      (statuses : (p : PathPolicy P) (c : P.Cluster) → I c → I (P.update_policy_status p c).1) where
    -- Storing a path of the policy keeps it.
    abbrev pub StoresKeep : PathPolicy P → Type 0
    StoresKeep policy =
        (peer : ScionClusterPeer) (f : Fetched P.Error) (c : P.Cluster)
        → I c
        → let change = mutate P r.scheme policy peer f in
          I (P.create_or_update (new_computed_path P policy peer) change c).1

    module _ (policy : PathPolicy P) where
      module _ (stores : StoresKeep policy) where
        compute_path-Keeps :
            (peer : ScionClusterPeer) (ready : Bool) → Keeps (compute_path P r policy peer ready)
        compute_path-Keeps peer ready w i = elim (compute_path-Stores P r policy peer ready w) [
          | inl same ↦ subst I (sym same) i
          | inr s ↦ subst I (sym s.stored) (stores peer _ w.cluster i)
        ]

        pub compute_paths-Keeps :
            (peers : List ScionClusterPeer) (ready : Bool)
            → Keeps (compute_paths P r policy peers ready)
        unfolding compute_paths
        compute_paths-Keeps [] ready = λ w i. i
        compute_paths-Keeps (peer ∷ peers) ready =
            >>=-Keeps (compute_path P r policy peer ready) (compute_paths P r policy peers)
              (compute_path-Keeps peer ready) λ b. compute_paths-Keeps peers b

        pub finish-Keeps :
            (peers : List ScionClusterPeer) (ready : Bool) → Keeps (finish P r policy peers ready)
        unfolding finish
        finish-Keeps peers false w i = i
        finish-Keeps peers true w i =
            let e : (finish P r policy peers true w).1.cluster
                ≡ (P.update_policy_status (with_ready P r policy peers) w.cluster).1 =
              ground arith in
            subst I (sym e) (statuses _ w.cluster i)

        reconcile_paths-Keeps : Keeps (reconcile_paths P r policy)
        unfolding reconcile_paths
        reconcile_paths-Keeps =
            >>=-Keeps (read P P.list_peers)
              (λ peers. compute_paths P r policy peers true >>= finish P r policy peers)
              (read-Keeps P.list_peers)
              λ peers.
                >>=-Keeps (compute_paths P r policy peers true) (finish P r policy peers)
                  (compute_paths-Keeps peers true) (finish-Keeps peers)

        reconcile_deleted-Keeps : Keeps (reconcile_deleted P r policy)
        unfolding reconcile_deleted
        reconcile_deleted-Keeps w i =
            elim (Bool-cases (P.contains_finalizer policy.meta cilion_finalizer)) [
              | inl has ↦
                  let p = record policy {
                    meta = P.remove_finalizer policy.meta cilion_finalizer;
                  } in
                  let e : (reconcile_deleted P r policy w).1.cluster
                      ≡ (P.update_policy p w.cluster).1 =
                    ground arith in
                  subst I (sym e) (updates p w.cluster i)
              | inr lacks ↦
                  let e : (reconcile_deleted P r policy w).1.cluster ≡ w.cluster = ground arith in
                  subst I (sym e) i
            ]

        add_finalizer-Keeps : Keeps (add_finalizer P r policy)
        unfolding add_finalizer
        add_finalizer-Keeps w i =
            let p = record policy { meta = P.add_finalizer policy.meta cilion_finalizer } in
            let e : (add_finalizer P r policy w).1.cluster ≡ (P.update_policy p w.cluster).1 =
              ground arith in
            subst I (sym e) (updates p w.cluster i)

        reconcile_policy-Keeps : Keeps (reconcile_policy P r policy)
        unfolding reconcile_policy
        reconcile_policy-Keeps =
            if-Keeps (not (P.is_zero policy.meta.deletion_timestamp)) (reconcile_deleted P r policy)
              (if not (P.contains_finalizer policy.meta cilion_finalizer)
                then add_finalizer P r policy
                else reconcile_paths P r policy)
              reconcile_deleted-Keeps
              (if-Keeps (not (P.contains_finalizer policy.meta cilion_finalizer))
                (add_finalizer P r policy) (reconcile_paths P r policy) add_finalizer-Keeps
                reconcile_paths-Keeps)

    -- Whatever a call returns, it keeps what its writes keep: the updates of policies, and the
    -- storing of paths of the policy that it reads.
    pub reconcile-Keeps :
        (req : NamespacedName) (w : World P)
        → ((policy : PathPolicy P) → P.get_policy req w.cluster ≡ ok policy → StoresKeep policy)
        → I w.cluster
        → I (reconcile P r req w).1.cluster
    reconcile-Keeps req w stores i = by_policy (P.get_policy req w.cluster) refl
      where
        by_policy :
            (x : Result P.Error (PathPolicy P))
            → P.get_policy req w.cluster ≡ x
            → I (reconcile P r req w).1.cluster
        by_policy (err e) missing =
            subst (λ (u : World P). I u.cluster) (sym (reconcile_missing P r req w e missing)) i
        by_policy (ok policy) found =
            subst (λ (x : Outcome P.Error × World P). I x.1.cluster)
              (sym (reconcile_found P r req w policy found))
              (reconcile_policy-Keeps policy (stores policy found) w i)
