-- ===== src/Api/Registration.antt =====
-- api/v1alpha1/groupversion_info.go, and `init` of the three *_types.go: which types the package
-- registers, and under which group and version.
pub mod Known
use cillion.Base.{String, Eq, ◌==◌, Option, List, [], ◌∷◌}
use cillion.Api.{ScionPathPolicy, ScionComputedPath, ScionClusterPeer}

-- `schema.GroupVersion`
pub record GroupVersion : Type 0 where
  pub group : String
  pub version : String

abbrev pub scheme_group_version : GroupVersion
scheme_group_version = record { group = "cilion.cilion.io"; version = "v1alpha1" }

abbrev pub group_version : GroupVersion
group_version = scheme_group_version

-- The lists, but for their metadata.
pub record ScionPathPolicyList (Selector : Type 0) : Type 0 where
  pub items : List (ScionPathPolicy Selector)

pub record ScionComputedPathList : Type 0 where
  pub items : List ScionComputedPath

pub record ScionClusterPeerList : Type 0 where
  pub items : List ScionClusterPeer

-- The types of the package that are a `runtime.Object`.
pub data ObjectType : Type 0 where
  path_policy path_policy_list computed_path computed_path_list : ObjectType
  cluster_peer cluster_peer_list : ObjectType

pub ObjectType-discrete : Discrete ObjectType
ObjectType-discrete = hlevel

instance unfoldable pub object_type_eq : Eq ObjectType
object_type_eq = record { dec = ObjectType-discrete }

-- The kind of an object is the name of its Go type.
abbrev pub kind_of : ObjectType → String
kind_of path_policy = "ScionPathPolicy"
kind_of path_policy_list = "ScionPathPolicyList"
kind_of computed_path = "ScionComputedPath"
kind_of computed_path_list = "ScionComputedPathList"
kind_of cluster_peer = "ScionClusterPeer"
kind_of cluster_peer_list = "ScionClusterPeerList"

-- controller-runtime's package scheme, and `runtime.Scheme`.
pub record Library : Type 1 where
  pub Error : Type 0
  pub Builder : Type 0
  pub Scheme : Type 0
  pub new_builder : GroupVersion → Builder
  pub register : List ObjectType → Builder → Builder
  pub add_to_scheme : Builder → Scheme → Option Error × Scheme

-- The files with an `init`.
pub data File : Type 0 where
  cluster_peer_types computed_path_types path_policy_types : File

pub File-discrete : Discrete File
File-discrete = hlevel

instance unfoldable pub file_eq : Eq File
file_eq = record { dec = File-discrete }

-- What each file registers.
abbrev pub cluster_peer_objects : List ObjectType
cluster_peer_objects = cluster_peer ∷ cluster_peer_list ∷ []

abbrev pub computed_path_objects : List ObjectType
computed_path_objects = computed_path ∷ computed_path_list ∷ []

abbrev pub path_policy_objects : List ObjectType
path_policy_objects = path_policy ∷ path_policy_list ∷ []

abbrev pub objects_of : File → List ObjectType
objects_of cluster_peer_types = cluster_peer_objects
objects_of computed_path_types = computed_path_objects
objects_of path_policy_types = path_policy_objects

module _ (B : Library) where
  -- `init` of a file, on the variable `SchemeBuilder`.
  abbrev pub init : File → B.Builder → B.Builder
  init f b = B.register (objects_of f) b

  abbrev pub inits : List File → B.Builder → B.Builder
  inits [] b = b
  inits (f ∷ fs) b = inits fs (init f b)

  -- `SchemeBuilder` when the package is initialised, its files in some order.
  unfoldable pub scheme_builder : List File → B.Builder
  scheme_builder files = inits files (B.new_builder scheme_group_version)

  -- `AddToScheme`
  unfoldable pub add_to_scheme : List File → B.Scheme → Option B.Error × B.Scheme
  unfolding scheme_builder
  add_to_scheme files s = B.add_to_scheme (scheme_builder files) s
