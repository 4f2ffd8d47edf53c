-- ===== src/Policy/Retries.antt =====
-- `Reconcile` called again, as the work queue does after an error or when a requeue is asked for.
use cillion.Base.{
  ℕ, zero, suc, ◌==◌, nat_eq, String, ◌≡◌, ◌≢◌, refl, ap, subst, ◌∙◌, ◌⊎◌, inl, inr, Bool, true,
  false, none, some, List, [], ◌∷◌, arith, Bool-cases,
}
use cillion.Api.{NamespacedName, ScionComputedPath, ScionClusterPeer}
use cillion.Platform.{Platform, Result, ok}
use cillion.Policy.Exec.{Outcome, returned, panicked, Flow, go, exit, continue, ends}
use cillion.Policy.{
  ScionClient, ScionPathPolicyReconciler, World, PathPolicy, fetch, compute_path, compute_paths,
  finish, with_ready, reconcile, done,
}
use cillion.Policy.Loop.{answers, all_ready}
use cillion.Policy.Outcomes.{IsActive, reconcile_active, reconcile_paths_listed}
use cillion.Policy.Success.{CallTaken, AllAnswered, reconcile_succeeds}

module _ (P : Platform) where
  -- Storing a computed path leaves the policies and the peers alone. The update of a status changes
  -- no policy in its metadata or its spec, whether it succeeds or not.
  pub record LeavesPolicies : Type 0 where
    pub get-update_status :
        (p old : PathPolicy P) (c : P.Cluster) (k : NamespacedName)
        → P.get_policy k c ≡ ok old
        → (new : PathPolicy P) × (P.get_policy k (P.update_policy_status p c).1 ≡ ok new)
          × (new.meta ≡ old.meta)
          × (new.spec ≡ old.spec)
    pub peers-update_status :
        (p : PathPolicy P) (c : P.Cluster)
        → P.list_peers (P.update_policy_status p c).1 ≡ P.list_peers c
    pub get-create_or_update :
        (o : ScionComputedPath) (f : ScionComputedPath → Result P.Error ScionComputedPath)
        (c : P.Cluster) (k : NamespacedName)
        → P.get_policy k (P.create_or_update o f c).1 ≡ P.get_policy k c
    pub peers-create_or_update :
        (o : ScionComputedPath) (f : ScionComputedPath → Result P.Error ScionComputedPath)
        (c : P.Cluster)
        → P.list_peers (P.create_or_update o f c).1 ≡ P.list_peers c

  record Same (c c' : P.Cluster) : Type 0 where
    policies : (k : NamespacedName) → P.get_policy k c' ≡ P.get_policy k c
    peers : P.list_peers c' ≡ P.list_peers c

  Same-trans : (c d e : P.Cluster) → Same c d → Same d e → Same c e
  Same-trans c d e s t = record {
    policies = λ k. t.policies k ∙ s.policies k;
    peers = t.peers ∙ s.peers;
  }

  module _ (r : ScionPathPolicyReconciler P) (req : NamespacedName) where
    -- Calls one after the other, until one returns no error and asks for no requeue.
    pub data Retries : World P → World P → Type 0 where
      settles : {w w' : World P} → reconcile P r req w ≡ (done, w') → Retries w w'
      again :
          {w w' : World P}
          → (reconcile P r req w).0 ≢ done
          → Retries (reconcile P r req w).1 w'
          → Retries w w'

    -- The world behind so many calls.
    abbrev pub after : ℕ → World P → World P
    after zero w = w
    after (suc n) w = after n (reconcile P r req w).1

  module _ (l : LeavesPolicies) (r : ScionPathPolicyReconciler P) where
    compute_path-Same :
        (policy : PathPolicy P) (peer : ScionClusterPeer) (ready : Bool) (w : World P)
        → Same w.cluster (compute_path P r policy peer ready w).1.cluster
    unfolding compute_path fetch
    compute_path-Same policy peer ready w = record {
      policies = λ k. grind (arith, l.get-create_or_update);
      peers = grind (arith, l.peers-create_or_update);
    }

    compute_paths-Same :
        (policy : PathPolicy P) (peers : List ScionClusterPeer) (ready : Bool) (w : World P)
        → Same w.cluster (compute_paths P r policy peers ready w).1.cluster
    unfolding compute_paths
    compute_paths-Same policy [] ready w = record { policies = λ k. refl; peers = refl }
    compute_paths-Same policy (peer ∷ peers) ready w =
        by_first (compute_path P r policy peer ready w) (compute_path-Same policy peer ready w)
          (compute_paths-Same policy peers)
      where
        by_first :
            (x : Flow P.Error Bool × World P)
            → Same w.cluster x.1.cluster
            → ((b : Bool) (u : World P)
                → Same u.cluster (compute_paths P r policy peers b u).1.cluster)
            → Same w.cluster (continue x.0 (compute_paths P r policy peers) x.1).1.cluster
        by_first (go b, u) s ih = Same-trans w.cluster u.cluster _ s (ih b u)
        by_first (exit o, u) s ih = s

  done-cases : (o : Outcome P.Error) → (o ≡ done) ⊎ (o ≢ done)
  done-cases (returned res none) = elim (Bool-cases (res.requeue_after == 0)) [
    | inl e ↦ inl (ground arith)
    | inr e ↦ inr (λ h. ground arith)
  ]
  done-cases (returned res (some e)) = inr (λ h. cc)
  done-cases panicked = inr (λ h. cc)

  module _ (l : LeavesPolicies) (r : ScionPathPolicyReconciler P) (req : NamespacedName)
      (peers : List ScionClusterPeer) where
    -- The policy is still stored, its status aside, and the peers are still those.
    record Still (policy : PathPolicy P) (c : P.Cluster) : Type 0 where
      now : PathPolicy P
      found : P.get_policy req c ≡ ok now
      meta : now.meta ≡ policy.meta
      spec : now.spec ≡ policy.spec
      listed : P.list_peers c ≡ ok peers

    finish-Still :
        (policy : PathPolicy P) (ready : Bool) (u : World P)
        → Still policy u.cluster
        → Still policy (ends (finish P r policy peers ready u)).1.cluster
    unfolding finish
    finish-Still policy false u s = s
    finish-Still policy true u s =
        let (new, found, meta, spec) =
          l.get-update_status (with_ready P r policy peers) s.now u.cluster req s.found in
        let written : (P.update_policy_status (with_ready P r policy peers) u.cluster).1
            ≡ (ends (finish P r policy peers true u)).1.cluster =
          ground arith in
        subst (Still policy) written (record {
          now = new;
          found = found;
          meta = meta ∙ s.meta;
          spec = spec ∙ s.spec;
          listed = l.peers-update_status (with_ready P r policy peers) u.cluster ∙ s.listed;
        })

    loop-Still :
        (policy : PathPolicy P) (x : Flow P.Error Bool × World P)
        → Still policy x.1.cluster
        → Still policy (ends (continue x.0 (finish P r policy peers) x.1)).1.cluster
    loop-Still policy (exit o, u) s = s
    loop-Still policy (go ready, u) s = finish-Still policy ready u s

    -- A call leaves an active policy active.
    reconcile-Still :
        (policy : PathPolicy P) (w : World P)
        → IsActive P r req w policy
        → P.list_peers w.cluster ≡ ok peers
        → Still policy (reconcile P r req w).1.cluster
    reconcile-Still policy w active listed =
        let ran =
          reconcile_active P r req w policy active
          ∙ ap ends (reconcile_paths_listed P r policy peers w listed) in
        let same = compute_paths-Same l r policy peers true w in
        rw ran (
          loop-Still policy (compute_paths P r policy peers true w) (record {
            now = policy;
            found = same.policies req ∙ active.found;
            meta = refl;
            spec = refl;
            listed = same.peers ∙ listed;
          }))

    module _ (client : ScionClient P) (preference : String)
        (has_client : r.scion_client ≡ some client) where
      -- The SCION service would now answer for every peer, with a path that is ready, and the server
      -- would take the writes of a call.
      pub record IsHealthy (w : World P) : Type 0 where
        pub answered : AllAnswered P (answers P client preference peers w.daemon).0
        pub ready : all_ready P (answers P client preference peers w.daemon).0 ≡ true
        pub taken :
            (policy : PathPolicy P)
            → P.get_policy req w.cluster ≡ ok policy
            → CallTaken P r policy client preference peers w

      -- The last call of a request that is called again until it is done: for the policy as it was
      -- at first, its status aside.
      pub record LastCall (policy : PathPolicy P) (w' : World P) : Type 0 where
        pub now : PathPolicy P
        pub before : World P
        pub same_meta : now.meta ≡ policy.meta
        pub same_spec : now.spec ≡ policy.spec
        pub active : IsActive P r req before now
        pub listed : P.list_peers before.cluster ≡ ok peers
        pub ran : reconcile P r req before ≡ (done, w')

      last_call :
          (policy : PathPolicy P) (w w' : World P)
          → IsActive P r req w policy
          → P.list_peers w.cluster ≡ ok peers
          → reconcile P r req w ≡ (done, w')
          → LastCall policy w'
      last_call policy w w' active listed finished = record {
        now = policy;
        before = w;
        same_meta = refl;
        same_spec = refl;
        active = active;
        listed = listed;
        ran = finished;
      }

      -- A policy whose calls end with an error or ask for a requeue, while the SCION service fails
      -- or is not ready or the server refuses a write, is settled once both are well: for an active
      -- policy with a client, a preference and the peers listed, if behind some number of calls the
      -- service would answer every peer with a path that is ready and the server would take each
      -- write of a call, then the calls end: one of these or the next returns no error and asks for
      -- no requeue. It is made for the policy with the metadata and the spec that it had at first,
      -- still active, with the same peers listed.
      pub retries_settle :
          (n : ℕ) (policy : PathPolicy P) (w : World P)
          → policy.spec.preference ≡ some preference
          → IsActive P r req w policy
          → P.list_peers w.cluster ≡ ok peers
          → IsHealthy (after r req n w)
          → (w' : World P) × Retries r req w w' × LastCall policy w'
      retries_settle zero policy w has_preference active listed healthy =
          let (w', ran) =
            reconcile_succeeds P r policy client preference has_client has_preference req w peers
              active listed healthy.answered (healthy.taken policy active.found) in
          let finished : reconcile P r req w ≡ (done, w') = ran ∙ rw healthy.ready refl in
          (w', settles finished, last_call policy w w' active listed finished)
      retries_settle (suc n) policy w has_preference active listed healthy =
          elim (done-cases (reconcile P r req w).0) [
            | inl finished ↦
                let w' = (reconcile P r req w).1 in
                let ran : reconcile P r req w ≡ (done, w') = λ i. (finished i, w') in
                (w', settles ran, last_call policy w w' active listed ran)
            | inr more ↦
                let s = reconcile-Still policy w active listed in
                let (w', retried, last) =
                  retries_settle n s.now (reconcile P r req w).1
                    (ap (λ (x : _). x.preference) s.spec ∙ has_preference)
                    (record {
                      found = s.found;
                      kept = rw s.meta active.kept;
                      finalized = rw s.meta active.finalized;
                    })
                    s.listed healthy in
                (
                  w',
                  again more retried,
                  record {
                    now = last.now;
                    before = last.before;
                    active = last.active;
                    listed = last.listed;
                    ran = last.ran;
                    same_meta = last.same_meta ∙ s.meta;
                    same_spec = last.same_spec ∙ s.spec;
                  },
                )
          ]
