-- ===== src/Policy/Ownership.antt =====
-- Which policy a computed path belongs to: the controller reference that `Reconcile` sets.
pub mod Calls
use cillion.Base.{
  String, ◌==◌, string_eq, if◌then◌else◌, ◌≡◌, ◌≢◌, refl, sym, ap, ◌∙◌, ◌⊎◌, inl, inr, Bool, true,
  false, ◌&&◌, Option, none, some, List, [], ◌∷◌, arith, subst,
}
use cillion.Api.{
  NamespacedName, same_key, key_of, ObjectMeta, OwnerReference, ScionComputedPath, ScionClusterPeer,
}
use cillion.Platform.{Platform, Result, ok, err, Fetched}
use cillion.Policy.{
  ScionPathPolicyReconciler, World, PathPolicy, mutate, new_computed_path, reconcile,
}
use cillion.Policy.Loop.{path_key}
use cillion.Policy.Keeps.{StoresKeep, reconcile-Keeps}

-- The uid of the owner that is the controller: `metav1.GetControllerOf`.
abbrev pub controller_of : List OwnerReference → Option String
controller_of [] = none
controller_of (o ∷ os) = if o.controller then some o.uid else controller_of os

-- Its name.
abbrev pub controller_name : List OwnerReference → Option String
controller_name [] = none
controller_name (o ∷ os) = if o.controller then some o.name else controller_name os

abbrev pub stored_or : ScionComputedPath → Option ScionComputedPath → ScionComputedPath
stored_or o none = o
stored_or o (some old) = old

module _ (P : Platform) where
  -- The computed path that the server holds under a key.
  abbrev pub Objects : Type 0
  Objects = P.Cluster → NamespacedName → Option ScionComputedPath

  -- The documented behaviour of owner references, and of the writes on whole objects.
  pub record KeepsOwners (at : Objects) : Type 0 where
    pub set_controller-owner :
        (s : P.Scheme) (owner m m' : ObjectMeta)
        → P.set_controller_reference s owner m ≡ ok m'
        → (controller_of m'.owner_references ≡ some owner.uid)
          × (controller_name m'.owner_references ≡ some owner.name)
    -- "If the object is already owned by another controller, an error is returned": a controller is
    -- another one if it has another name, group or kind; its uid is not looked at.
    pub set_controller-taken :
        (s : P.Scheme) (owner m : ObjectMeta) (name : String)
        → controller_name m.owner_references ≡ some name
        → name ≢ owner.name
        → (e : P.Error) × (P.set_controller_reference s owner m ≡ err e)
    pub object-update :
        (p : PathPolicy P) (c : P.Cluster) (k : NamespacedName)
        → at (P.update_policy p c).1 k ≡ at c k
    pub object-update_status :
        (p : PathPolicy P) (c : P.Cluster) (k : NamespacedName)
        → at (P.update_policy_status p c).1 k ≡ at c k
    -- The callback gets the stored object, if there is one, and nothing is stored if it fails.
    -- Also where the write fails, a key holds what it held or the callback's result.
    pub object-create_or_update :
        (o : ScionComputedPath) (f : ScionComputedPath → Result P.Error ScionComputedPath)
        (c : P.Cluster) (k : NamespacedName)
        → (at (P.create_or_update o f c).1 k ≡ at c k)
          ⊎ ((new : ScionComputedPath) × (f (stored_or o (at c (key_of o.meta))) ≡ ok new)
              × (same_key k (key_of o.meta) ≡ true)
              × (at (P.create_or_update o f c).1 k ≡ some new))
    -- If it succeeds, then the key of the object holds the callback's result.
    pub object-stored :
        (o : ScionComputedPath) (f : ScionComputedPath → Result P.Error ScionComputedPath)
        (c c' : P.Cluster)
        → P.create_or_update o f c ≡ (none, c')
        → (new : ScionComputedPath) × (f (stored_or o (at c (key_of o.meta))) ≡ ok new)
          × ((k : NamespacedName)
              → at c' k ≡ (if same_key k (key_of o.meta) then some new else at c k))

  module _ (at : Objects) (K : KeepsOwners at) (r : ScionPathPolicyReconciler P) where
    key-eq : (k j : NamespacedName) → same_key k j ≡ true → k ≡ j
    key-eq k j h = ground arith

    mutate-taken :
        (policy : PathPolicy P) (peer : ScionClusterPeer) (f : Fetched P.Error)
        (old new : ScionComputedPath) (name : String)
        → controller_name old.meta.owner_references ≡ some name
        → name ≢ policy.meta.name
        → mutate P r.scheme policy peer f old ≢ ok new
    unfolding mutate
    mutate-taken policy peer f old new name controlled other h =
        let (e, refused) =
          K.set_controller-taken r.scheme policy.meta old.meta name controlled other in
        ground arith

    taken-Keeps :
        (policy : PathPolicy P) (k : NamespacedName) (obj : ScionComputedPath) (name : String)
        → controller_name obj.meta.owner_references ≡ some name
        → name ≢ policy.meta.name
        → StoresKeep P
            (λ (c : P.Cluster). at c k ≡ some obj)
            r
            (λ p c i. K.object-update p c k ∙ i)
            (λ p c i. K.object-update_status p c k ∙ i)
            policy
    taken-Keeps policy k obj name controlled other peer f c i =
        let o = new_computed_path P policy peer in
        elim (K.object-create_or_update o (mutate P r.scheme policy peer f) c k) [
          | inl same ↦ same ∙ i
          | inr (new, made, key, stored) ↦
              let here : at c (key_of o.meta) ≡ some obj =
                subst (λ (j : NamespacedName). at c j ≡ some obj) (key-eq k _ key) i in
              absurd (mutate-taken policy peer f obj new name controlled other (rw here at made))
        ]

    -- Whatever a call returns: a computed path whose controller has another name than the policy of
    -- the request is left exactly as it is.
    pub reconcile_keeps_taken :
        (req : NamespacedName) (w : World P) (k : NamespacedName) (obj : ScionComputedPath)
        (name : String)
        → at w.cluster k ≡ some obj
        → controller_name obj.meta.owner_references ≡ some name
        → ((policy : PathPolicy P)
            → P.get_policy req w.cluster ≡ ok policy
            → name ≢ policy.meta.name)
        → at (reconcile P r req w).1.cluster k ≡ some obj
    reconcile_keeps_taken req w k obj name holds controlled other =
        reconcile-Keeps P (λ (c : P.Cluster). at c k ≡ some obj) r
          (λ p c i. K.object-update p c k ∙ i) (λ p c i. K.object-update_status p c k ∙ i) req w
          (λ policy found. taken-Keeps policy k obj name controlled (other policy found)) holds
