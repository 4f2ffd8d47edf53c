-- ===== src/Platform.antt =====
-- What the controllers call and the repository does not hold: the API server behind
-- `client.Client`, controller-runtime, apimachinery, and the SCION control service.

use cillion.Base.{
  ℕ, String, ◌==◌, string_eq, contains, if◌then◌else◌, ◌≡◌, Bool, not, ◌&&◌, ◌||◌, Option, none,
  some, List, [], ◌∷◌,
}
use cillion.Api.{
  NamespacedName, same_key, key_of, ObjectMeta, Condition, ScionPathPolicy, ScionComputedPath,
  ScionComputedPathSpec, ScionClusterPeer,
}

-- A Go result `(value, err)` of which the caller reads the value only when `err` is nil.
pub data Result (E : Type 0) (A : Type 0) : Type 0 where
  ok : A → Result E A
  err : E → Result E A

-- The four results of `FetchPath`.
pub record Fetched (E : Type 0) : Type 0 where
  pub is_ready : Bool
  pub raw_hop_fields : List ℕ
  pub next_hop_ip : String
  pub failure : Option E

pub record Platform : Type 1 where
  -- Non-nil Go errors.
  pub Error : Type 0
  -- The API server with the objects that it stores.
  pub Cluster : Type 0
  -- The SCION control service.
  pub Daemon : Type 0
  pub Scheme : Type 0
  pub LabelSelector : Type 0
  -- `labels.Selector`
  pub Selector : Type 0
  -- `client.IgnoreNotFound`
  pub ignore_not_found : Error → Option Error
  -- `r.Get`, `r.List` and `r.Update`
  pub get_policy : NamespacedName → Cluster → Result Error (ScionPathPolicy LabelSelector)
  pub list_peers : Cluster → Result Error (List ScionClusterPeer)
  -- The items that the call leaves in the list, and its error.
  pub list_policies : String → Cluster → List (ScionPathPolicy LabelSelector) × Option Error
  pub update_policy : ScionPathPolicy LabelSelector → Cluster → Option Error × Cluster
  pub update_policy_status : ScionPathPolicy LabelSelector → Cluster → Option Error × Cluster
  -- package controllerutil
  pub create_or_update :
      ScionComputedPath
      → (ScionComputedPath → Result Error ScionComputedPath)
      → Cluster
      → Option Error × Cluster
  pub set_controller_reference : Scheme → ObjectMeta → ObjectMeta → Result Error ObjectMeta
  pub contains_finalizer : ObjectMeta → String → Bool
  pub add_finalizer : ObjectMeta → String → ObjectMeta
  pub remove_finalizer : ObjectMeta → String → ObjectMeta
  -- package metav1 and apimeta
  pub is_zero : Option ℕ → Bool
  pub set_status_condition : List Condition → Condition → List Condition
  pub label_selector_as_selector : LabelSelector → Result Error Selector
  pub matches : Selector → List (String × String) → Bool

-- What is stored of an object that is being deleted: it is gone with its last finalizer.
abbrev pub stored_or_gone : List String → Option (List String)
stored_or_gone [] = none
stored_or_gone (f ∷ fs) = some (f ∷ fs)

module _ (P : Platform) where
  -- What an observer reads from the API server, under an object's key.
  pub record View : Type 0 where
    pub finalizers_at : P.Cluster → NamespacedName → Option (List String)
    pub conditions_at : P.Cluster → NamespacedName → Option (List Condition)
    pub path_at : P.Cluster → NamespacedName → Option ScionComputedPathSpec

  -- The documented behaviour that the controllers rely on. It speaks of calls that succeed.
  pub record IsLawful (v : View) : Type 0 where
    pub get-key :
        (k : NamespacedName) (c : P.Cluster) (p : ScionPathPolicy P.LabelSelector)
        → P.get_policy k c ≡ ok p
        → key_of p.meta ≡ k
    -- An update stores the object. One that is being deleted goes with its last finalizer.
    pub finalizers-update :
        (p : ScionPathPolicy P.LabelSelector) (c c' : P.Cluster)
        → P.update_policy p c ≡ (none, c')
        → v.finalizers_at c' (key_of p.meta) ≡ (
            if P.is_zero p.meta.deletion_timestamp
            then some p.meta.finalizers
            else stored_or_gone p.meta.finalizers)
    pub conditions-update_status :
        (p : ScionPathPolicy P.LabelSelector) (c c' : P.Cluster)
        → P.update_policy_status p c ≡ (none, c')
        → v.conditions_at c' (key_of p.meta) ≡ some p.status.conditions
    pub contains_finalizer_lem :
        (m : ObjectMeta) (f : String) → P.contains_finalizer m f ≡ contains m.finalizers f
    pub contains-add_finalizer :
        (m : ObjectMeta) (f g : String)
        → contains (P.add_finalizer m f).finalizers g ≡ (g == f || contains m.finalizers g)
    pub contains-remove_finalizer :
        (m : ObjectMeta) (f g : String)
        → contains (P.remove_finalizer m f).finalizers g ≡ (not (g == f) && contains m.finalizers g)
    -- The two change nothing but the finalizers.
    pub add_finalizer_rest :
        (m : ObjectMeta) (f : String)
        → P.add_finalizer m f ≡ record m { finalizers = (P.add_finalizer m f).finalizers }
    pub remove_finalizer_rest :
        (m : ObjectMeta) (f : String)
        → P.remove_finalizer m f ≡ record m { finalizers = (P.remove_finalizer m f).finalizers }
    -- Storing a computed path leaves the conditions of the policies alone.
    pub conditions-create_or_update :
        (o : ScionComputedPath) (mutate : ScionComputedPath → Result P.Error ScionComputedPath)
        (c : P.Cluster) (k : NamespacedName)
        → v.conditions_at (P.create_or_update o mutate c).1 k ≡ v.conditions_at c k
    -- A policy's update and its status subresource leave computed paths alone.
    pub path-update :
        (p : ScionPathPolicy P.LabelSelector) (c : P.Cluster) (k : NamespacedName)
        → v.path_at (P.update_policy p c).1 k ≡ v.path_at c k
    pub path-update_status :
        (p : ScionPathPolicy P.LabelSelector) (c : P.Cluster) (k : NamespacedName)
        → v.path_at (P.update_policy_status p c).1 k ≡ v.path_at c k
    -- The callback is applied to the stored object or to the one passed in, and its result is
    -- what the server then holds under the key. No other object changes.
    pub path-create_or_update :
        (o : ScionComputedPath) (mutate : ScionComputedPath → Result P.Error ScionComputedPath)
        (s : ScionComputedPathSpec)
        → ((old new : ScionComputedPath) → mutate old ≡ ok new → new.spec ≡ s)
        → (c c' : P.Cluster) → P.create_or_update o mutate c ≡ (none, c')
        → (k : NamespacedName)
        → v.path_at c' k ≡ (if same_key k (key_of o.meta) then some s else v.path_at c k)
