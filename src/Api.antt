-- ===== src/Api.antt =====
-- api/v1alpha1/: the custom resources, and of the Kubernetes metadata types the fields that the
-- controllers read or write. A label selector is opaque: only Kubernetes code looks into it.
pub mod Registration
use cillion.Base.{ℕ, String, ◌==◌, string_eq, Bool, ◌&&◌, Option, none, List, []}

pub record NamespacedName : Type 0 where
  pub name : String
  pub namespace : String

-- Go's `==` of two such structs.
abbrev pub same_key : NamespacedName → NamespacedName → Bool
same_key a b = a.name == b.name && a.namespace == b.namespace

pub record OwnerReference : Type 0 where
  pub kind : String
  pub name : String
  pub uid : String
  pub controller : Bool

pub record ObjectMeta : Type 0 where
  pub name : String
  pub namespace : String
  pub uid : String
  pub generation : ℕ
  pub deletion_timestamp : Option ℕ
  pub finalizers : List String
  pub owner_references : List OwnerReference
  pub labels : List (String × String)

-- `ObjectMeta{Name: name, Namespace: namespace}`: every other field has its zero value.
abbrev pub object_meta : String → String → ObjectMeta
object_meta name namespace = record {
  name = name;
  namespace = namespace;
  uid = "";
  generation = 0;
  deletion_timestamp = none;
  finalizers = [];
  owner_references = [];
  labels = [];
}

abbrev pub key_of : ObjectMeta → NamespacedName
key_of m = record { name = m.name; namespace = m.namespace }

pub data ConditionStatus : Type 0 where
  condition_true condition_false condition_unknown : ConditionStatus

pub record Condition : Type 0 where
  pub type_ : String
  pub status : ConditionStatus
  pub observed_generation : ℕ
  pub last_transition_time : ℕ
  pub reason : String
  pub message : String

-- scionpathpolicy_types.go; `Selector` is `metav1.LabelSelector`.
pub record ScionPathPolicySpec (Selector : Type 0) : Type 0 where
  pub pod_selector : Selector
  pub preference : Option String

pub record ScionPathPolicyStatus : Type 0 where
  pub conditions : List Condition

pub record ScionPathPolicy (Selector : Type 0) : Type 0 where
  pub meta : ObjectMeta
  pub spec : ScionPathPolicySpec Selector
  pub status : ScionPathPolicyStatus

-- scioncomputedpath_types.go
pub record ScionComputedPathSpec : Type 0 where
  pub policy_ref : String
  pub destination_cidr : String
  pub next_hop_ip : String
  pub hop_fields : List ℕ

pub record ScionComputedPathStatus : Type 0 where
  pub conditions : List Condition

pub record ScionComputedPath : Type 0 where
  pub meta : ObjectMeta
  pub spec : ScionComputedPathSpec
  pub status : ScionComputedPathStatus

-- scionclusterpeer_types.go
pub record ScionClusterPeerSpec : Type 0 where
  pub remote_as : String
  pub pod_cidr : String

pub record ScionClusterPeerStatus : Type 0 where
  pub conditions : List Condition

pub record ScionClusterPeer : Type 0 where
  pub meta : ObjectMeta
  pub spec : ScionClusterPeerSpec
  pub status : ScionClusterPeerStatus
