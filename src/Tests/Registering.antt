-- ===== src/Tests/Registering.antt =====
-- A small scheme, and what it knows after the package's `AddToScheme`.
use cillion.Base.{
  String, ◌==◌, string_eq, contains, if◌then◌else◌, ◌≡◌, refl, Bool, true, false, ◌&&◌, ◌||◌,
  Option, none, some, List, [], ◌∷◌, ◌++◌, arith,
}
use cillion.Api.Registration.{
  GroupVersion, scheme_group_version, ObjectType, path_policy, path_policy_list, computed_path,
  computed_path_list, cluster_peer, cluster_peer_list, object_type_eq, kind_of, Library, File,
  file_eq, cluster_peer_types, computed_path_types, path_policy_types, add_to_scheme,
}
use cillion.Api.Registration.Known.{View, IsLawful, add_to_scheme-known}

abbrev Types : Type 0
Types = GroupVersion → ObjectType → Bool

abbrev same_version : GroupVersion → GroupVersion → Bool
same_version a b = a.group == b.group && a.version == b.version

abbrev added : GroupVersion × List ObjectType → Types → Types
added b s g t = s g t || (same_version g b.0 && contains b.1 t)

abbrev toy_library : Library
toy_library = record {
  Error = Unit {0};
  Builder = GroupVersion × List ObjectType;
  Scheme = Types;
  new_builder = λ g. (g, []);
  register = λ ts b. (b.0, b.1 ++ ts);
  add_to_scheme = λ b s. (none, added b s);
}

type_named : String → Option ObjectType
type_named k =
    if k == "ScionPathPolicy"
    then some path_policy
    else if k == "ScionPathPolicyList"
    then some path_policy_list
    else if k == "ScionComputedPath"
    then some computed_path
    else if k == "ScionComputedPathList"
    then some computed_path_list
    else if k == "ScionClusterPeer"
    then some cluster_peer
    else if k == "ScionClusterPeerList"
    then some cluster_peer_list
    else none

type_named-kind_of : (t : ObjectType) → type_named (kind_of t) ≡ some t
unfolding type_named string_eq
type_named-kind_of path_policy = refl
type_named-kind_of path_policy_list = refl
type_named-kind_of computed_path = refl
type_named-kind_of computed_path_list = refl
type_named-kind_of cluster_peer = refl
type_named-kind_of cluster_peer_list = refl

abbrev if_known : Types → GroupVersion → Option ObjectType → Option ObjectType
if_known s g none = none
if_known s g (some t) = if s g t then some t else none

abbrev toy_view : View toy_library
toy_view = record {
  version_of = λ b. b.0;
  registered = λ b. b.1;
  known = λ s g k. if_known s g (type_named k);
}

if_known-some :
    (s s' : Types) (g : GroupVersion) (o : Option ObjectType) (t : ObjectType)
    → ((u : ObjectType) → s g u ≡ true → s' g u ≡ true)
    → if_known s g o ≡ some t
    → if_known s' g o ≡ some t
if_known-some s s' g none t more h = h
if_known-some s s' g (some u) t more h = ground (arith, more u)

same_version_self : (g : GroupVersion) → same_version g g ≡ true
same_version_self g = ground arith

toy-IsLawful : IsLawful toy_library toy_view
toy-IsLawful = record {
  version-new = λ g. refl;
  version-register = λ ts b. refl;
  registered-register = λ ts b. refl;
  known-add = λ b s s' t h has. rw (type_named-kind_of t) (ground (arith, same_version_self b.0));
  known-stays =
      λ b s s' g k t h old. if_known-some s s' g (type_named k) t (λ u e. ground arith) old;
}

abbrev files : List File
files = cluster_peer_types ∷ computed_path_types ∷ path_policy_types ∷ []

files-all : (f : File) → contains files f ≡ true
files-all cluster_peer_types = ground arith
files-all f = ground arith

abbrev nothing : Types
nothing g t = false

add_to_scheme-known_example :
    ((t : ObjectType)
      → toy_view.known (add_to_scheme toy_library files nothing).1 scheme_group_version (kind_of t)
        ≡ some t)
    × ((g : GroupVersion) (k : String) (t : ObjectType)
        → toy_view.known nothing g k ≡ some t
        → toy_view.known (add_to_scheme toy_library files nothing).1 g k ≡ some t)
unfolding add_to_scheme
add_to_scheme-known_example =
    add_to_scheme-known toy_library toy_view toy-IsLawful files files-all nothing
      (add_to_scheme toy_library files nothing).1 refl
