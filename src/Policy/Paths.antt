-- ===== src/Policy/Paths.antt =====
-- What the stored paths are worth: who owns a name, and that a repeated call changes nothing.
use text.Mathlib.TextLemmas.{append_cancel_left, append_assoc}
use cillion.Base.{
  String, ◌<>◌, string_eq, ◌≡◌, refl, sym, ap, ◌∙◌, ◌⊎◌, inl, inr, Bool, true, false, ◌&&◌, Option,
  none, some, List, [], ◌∷◌, ◌++◌, arith, if◌then◌else◌, All,
}
use cillion.Api.{NamespacedName, same_key, key_of, ScionComputedPathSpec, ScionClusterPeer}
use cillion.Platform.{Platform, View, IsLawful, ok, Fetched}
use cillion.Policy.Exec.{CtrlResult, returned}
use cillion.Policy.{
  ScionClient, ScionPathPolicyReconciler, World, PathPolicy, computed_path_name, path_spec,
  reconcile,
}
use cillion.Policy.Loop.{Answers, answers, latest, path_key}
use cillion.Policy.Outcomes.{IsActive, reconcile_refines}

-- Under one policy, two peers share a computed path exactly when they share their name. Across
-- policies the names are ambiguous: they collide whenever a name contains the separator.
computed_path_name_collisions :
    ((policy peer peer' : String)
      → computed_path_name policy peer ≡ computed_path_name policy peer'
      → peer ≡ peer')
    × ((a b c : String)
        → computed_path_name (a <> ("-to-" <> b)) c ≡ computed_path_name a (b <> ("-to-" <> c)))
unfolding computed_path_name
computed_path_name_collisions = (
  λ policy peer peer' e. append_cancel_left "-to-" _ _ (append_cancel_left policy _ _ e),
  λ a b c. simp append_assoc,
)

same_key_self : (k : NamespacedName) → same_key k k ≡ true
same_key_self k = ground arith

module _ (P : Platform) (policy : PathPolicy P) (k : NamespacedName) where
  -- No ready answer is for this key.
  abbrev pub Misses : Answers P → Type 0
  Misses = All (λ (peer, f). (f.is_ready && same_key k (path_key P policy peer)) ≡ false)

  pub latest_missed :
      (got : Answers P) (old : Option ScionComputedPathSpec)
      → Misses got
      → latest P policy k got old ≡ old
  latest_missed [] old m = refl
  latest_missed ((peer, f) ∷ rest) old m = rw m.0 (latest_missed rest old m.1)

  latest_cases :
      (got : Answers P)
      → ((s : ScionComputedPathSpec) × ((old : Option ScionComputedPathSpec)
            → latest P policy k got old ≡ some s))
        ⊎ ((old : Option ScionComputedPathSpec) → latest P policy k got old ≡ old)
  latest_cases [] = inr (λ old. refl)
  latest_cases ((peer, f) ∷ rest) =
      extend (f.is_ready && same_key k (path_key P policy peer)) (latest_cases rest)
    where
      extend :
          (b : Bool)
          → ((s : ScionComputedPathSpec) × ((old : Option ScionComputedPathSpec)
                → latest P policy k rest old ≡ some s))
            ⊎ ((old : Option ScionComputedPathSpec) → latest P policy k rest old ≡ old)
          → ((s : ScionComputedPathSpec) × ((old : Option ScionComputedPathSpec)
                → latest P policy k rest (if b then some (path_spec P policy peer f) else old)
                  ≡ some s))
            ⊎ ((old : Option ScionComputedPathSpec)
                → latest P policy k rest (if b then some (path_spec P policy peer f) else old)
                  ≡ old)
      extend b (inl (s, e)) = inl (s, λ old. e _)
      extend true (inr e) = inl (path_spec P policy peer f, λ old. e _)
      extend false (inr e) = inr e

  pub latest-latest :
      (got : Answers P) (old : Option ScionComputedPathSpec)
      → latest P policy k got (latest P policy k got old) ≡ latest P policy k got old
  latest-latest got old = elim (latest_cases got) [ inl (s, e) ↦ e _ ∙ sym (e old) | inr e ↦ e _ ]

  -- The answers of a later peer of the same name would replace the path.
  pub latest_last :
      (before after : Answers P) (peer : ScionClusterPeer) (f : Fetched P.Error)
      (old : Option ScionComputedPathSpec)
      → f.is_ready ≡ true
      → same_key k (path_key P policy peer) ≡ true
      → Misses after
      → latest P policy k (before ++ (peer, f) ∷ after) old ≡ some (path_spec P policy peer f)
  latest_last [] after peer f old up same m = rw (up, same) (latest_missed after _ m)
  latest_last (_ ∷ before) after peer f old up same m = latest_last before after peer f _ up same m

module _ (P : Platform) where
  abbrev latest_step :
      PathPolicy P
      → NamespacedName
      → ScionClusterPeer
      → Fetched P.Error
      → Option ScionComputedPathSpec
      → Option ScionComputedPathSpec
  latest_step p k peer f old =
      if f.is_ready && same_key k (path_key P p peer) then some (path_spec P p peer f) else old

  latest_step_same :
      (p q : PathPolicy P) (k : NamespacedName) (peer : ScionClusterPeer) (f : Fetched P.Error)
      (old : Option ScionComputedPathSpec)
      → key_of p.meta ≡ key_of q.meta
      → latest_step p k peer f old ≡ latest_step q k peer f old
  latest_step_same p q k peer f old e = ap (λ (n : NamespacedName). step n.name n.namespace) e
    where
      step : String → String → Option ScionComputedPathSpec
      step name namespace =
          if f.is_ready
            && same_key k
                (record { name = computed_path_name name peer.meta.name; namespace = namespace })
          then some (record {
            policy_ref = name;
            destination_cidr = peer.spec.pod_cidr;
            next_hop_ip = f.next_hop_ip;
            hop_fields = f.raw_hop_fields;
          })
          else old

  -- The path depends on the policy by its name and namespace alone.
  pub latest_same :
      (p q : PathPolicy P) (k : NamespacedName) (got : Answers P)
      (old : Option ScionComputedPathSpec)
      → key_of p.meta ≡ key_of q.meta
      → latest P p k got old ≡ latest P q k got old
  latest_same p q k [] old e = refl
  latest_same p q k ((peer, f) ∷ rest) old e =
      latest_same p q k rest (latest_step p k peer f old) e
      ∙ ap (latest P q k rest) (latest_step_same p q k peer f old e)

  module _ (v : View P) (L : IsLawful P v) (r : ScionPathPolicyReconciler P) where
    -- Two calls for one request, each for an active policy with a client, a preference and the
    -- peers listed, and both without an error: if the SCION service gives the second call the
    -- answers of the first, then the second leaves every computed path as it was. In between, the
    -- policy and the status may have been written.
    pub reconcile_again :
        (req : NamespacedName) (client : ScionClient P) (preference preference' : String)
        (w u u' w' : World P) (policy policy' : PathPolicy P) (peers peers' : List ScionClusterPeer)
        (res res' : CtrlResult)
        → r.scion_client ≡ some client
        → policy.spec.preference ≡ some preference
        → policy'.spec.preference ≡ some preference'
        → IsActive P r req w policy
        → IsActive P r req u' policy'
        → P.list_peers w.cluster ≡ ok peers
        → P.list_peers u'.cluster ≡ ok peers'
        → reconcile P r req w ≡ (returned res none, u)
        → ((k : NamespacedName) → v.path_at u'.cluster k ≡ v.path_at u.cluster k)
        → reconcile P r req u' ≡ (returned res' none, w')
        → (answers P client preference' peers' u'.daemon).0
          ≡ (answers P client preference peers w.daemon).0
        → (k : NamespacedName) → v.path_at w'.cluster k ≡ v.path_at u'.cluster k
    reconcile_again req client pr pr' w u u' w' p p' ps ps' res res' hc hp hp' a a' l l' run keep
          run' same k =
        let got = (answers P client pr ps w.daemon).0 in
        let first = (reconcile_refines P v L r req w p ps client pr a l hc hp res u run).0 k in
        let second =
          (reconcile_refines P v L r req u' p' ps' client pr' a' l' hc hp' res' w' run').0 k in
        let key = L.get-key req w.cluster p a.found ∙ sym (L.get-key req u'.cluster p' a'.found) in
        let now = keep k ∙ first in
        second
        ∙ ap (λ (g : Answers P). latest P p' k g (v.path_at u'.cluster k)) same
        ∙ sym (latest_same p p' k got _ key)
        ∙ ap (latest P p k got) now
        ∙ latest-latest P p k got _
        ∙ sym now

    -- For an active policy with a client, a preference and the peers listed: after a call without
    -- an error the path of a ready peer is stored under the joined name, with the peer's CIDR and
    -- the answer's next hop and hop fields, unless a later ready peer has the same name. A key that
    -- belongs to no ready peer holds what it held before.
    reconcile_each_peer :
        (req : NamespacedName) (client : ScionClient P) (preference : String) (w w' : World P)
        (policy : PathPolicy P) (peers : List ScionClusterPeer) (res : CtrlResult)
        → r.scion_client ≡ some client
        → policy.spec.preference ≡ some preference
        → IsActive P r req w policy
        → P.list_peers w.cluster ≡ ok peers
        → reconcile P r req w ≡ (returned res none, w')
        → let got = (answers P client preference peers w.daemon).0 in
          ((before after : Answers P) (peer : ScionClusterPeer) (f : Fetched P.Error)
            → got ≡ before ++ (peer, f) ∷ after
            → f.is_ready ≡ true
            → Misses P policy (path_key P policy peer) after
            → v.path_at w'.cluster (path_key P policy peer) ≡ some (path_spec P policy peer f))
          × ((k : NamespacedName)
              → Misses P policy k got
              → v.path_at w'.cluster k ≡ v.path_at w.cluster k)
    reconcile_each_peer req client preference w w' policy peers res hc hp active listed run =
        let wrote =
          (reconcile_refines P v L r req w policy peers client preference active listed hc hp res w'
            run).0 in
        (
          λ before after peer f e up m.
              let k = path_key P policy peer in
              wrote k
              ∙ ap (λ (g : Answers P). latest P policy k g (v.path_at w.cluster k)) e
              ∙ latest_last P policy k before after peer f _ up (same_key_self k) m,
          λ k m. wrote k ∙ latest_missed P policy k _ _ m,
        )
