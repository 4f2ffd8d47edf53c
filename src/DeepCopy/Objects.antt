-- ===== src/DeepCopy/Objects.antt =====
-- `DeepCopy` of each type, and `DeepCopyObject` of the six that are runtime objects.
use cillion.Base.{Option, none, some}
use cillion.Api.{ScionClusterPeerSpec}
use cillion.DeepCopy.Memory.{
  Kinds, Status, PathSpec, PolicySpec, Peer, ComputedPath, Policy, Items, Heap,
}
use cillion.DeepCopy.Copies.{
  Library, status_deep_copy_into, path_status_deep_copy_into, policy_status_deep_copy_into,
  peer_spec_deep_copy_into, path_spec_deep_copy_into, policy_spec_deep_copy_into,
  peer_deep_copy_into, peer_list_deep_copy_into, path_deep_copy_into, path_list_deep_copy_into,
  policy_deep_copy_into, policy_list_deep_copy_into,
}

module _ (K : Kinds) where
  -- Nil for nil, or a new struct that `DeepCopyInto` fills.
  abbrev pub deep_copy :
      {A : Type 0} → (A → Heap K → A × Heap K) → Option A → Heap K → Option A × Heap K
  deep_copy into none h = (none, h)
  deep_copy into (some o) h = let (o', h') = into o h in (some o', h')

  -- A `runtime.Object`, by its dynamic type, with the pointer that it holds.
  pub data Object : Type 0 where
    peer : Option (Peer K) → Object
    peer_list : Option (Items K) → Object
    path : Option (ComputedPath K) → Object
    path_list : Option (Items K) → Object
    policy : Option (Policy K) → Object
    policy_list : Option (Items K) → Object

  -- `if c := in.DeepCopy(); c != nil { return c }; return nil`
  abbrev pub as_object :
      {A : Type 0} → (Option A → Object) → Option A × Heap K → Option Object × Heap K
  as_object f (none, h) = (none, h)
  as_object f (some o, h) = (some (f (some o)), h)

module _ (K : Kinds) (L : Library K) where
  abbrev pub peer_deep_copy : Option (Peer K) → Heap K → Option (Peer K) × Heap K
  peer_deep_copy = deep_copy K (peer_deep_copy_into K L)

  abbrev pub peer_list_deep_copy : Option (Items K) → Heap K → Option (Items K) × Heap K
  peer_list_deep_copy = deep_copy K (peer_list_deep_copy_into K L)

  abbrev pub peer_spec_deep_copy :
      Option ScionClusterPeerSpec → Heap K → Option ScionClusterPeerSpec × Heap K
  peer_spec_deep_copy = deep_copy K (peer_spec_deep_copy_into K L)

  abbrev pub peer_status_deep_copy : Option Status → Heap K → Option Status × Heap K
  peer_status_deep_copy = deep_copy K (status_deep_copy_into K L)

  abbrev pub path_deep_copy : Option (ComputedPath K) → Heap K → Option (ComputedPath K) × Heap K
  path_deep_copy = deep_copy K (path_deep_copy_into K L)

  abbrev pub path_list_deep_copy : Option (Items K) → Heap K → Option (Items K) × Heap K
  path_list_deep_copy = deep_copy K (path_list_deep_copy_into K L)

  abbrev pub path_spec_deep_copy : Option PathSpec → Heap K → Option PathSpec × Heap K
  path_spec_deep_copy = deep_copy K (path_spec_deep_copy_into K L)

  abbrev pub path_status_deep_copy : Option Status → Heap K → Option Status × Heap K
  path_status_deep_copy = deep_copy K (path_status_deep_copy_into K L)

  abbrev pub policy_deep_copy : Option (Policy K) → Heap K → Option (Policy K) × Heap K
  policy_deep_copy = deep_copy K (policy_deep_copy_into K L)

  abbrev pub policy_list_deep_copy : Option (Items K) → Heap K → Option (Items K) × Heap K
  policy_list_deep_copy = deep_copy K (policy_list_deep_copy_into K L)

  abbrev pub policy_spec_deep_copy : Option (PolicySpec K) → Heap K → Option (PolicySpec K) × Heap K
  policy_spec_deep_copy = deep_copy K (policy_spec_deep_copy_into K L)

  abbrev pub policy_status_deep_copy : Option Status → Heap K → Option Status × Heap K
  policy_status_deep_copy = deep_copy K (policy_status_deep_copy_into K L)

  abbrev pub peer_deep_copy_object : Option (Peer K) → Heap K → Option (Object K) × Heap K
  peer_deep_copy_object p h = as_object K peer (peer_deep_copy p h)

  abbrev pub peer_list_deep_copy_object : Option (Items K) → Heap K → Option (Object K) × Heap K
  peer_list_deep_copy_object p h = as_object K peer_list (peer_list_deep_copy p h)

  abbrev pub path_deep_copy_object : Option (ComputedPath K) → Heap K → Option (Object K) × Heap K
  path_deep_copy_object p h = as_object K path (path_deep_copy p h)

  abbrev pub path_list_deep_copy_object : Option (Items K) → Heap K → Option (Object K) × Heap K
  path_list_deep_copy_object p h = as_object K path_list (path_list_deep_copy p h)

  abbrev pub policy_deep_copy_object : Option (Policy K) → Heap K → Option (Object K) × Heap K
  policy_deep_copy_object p h = as_object K policy (policy_deep_copy p h)

  abbrev pub policy_list_deep_copy_object : Option (Items K) → Heap K → Option (Object K) × Heap K
  policy_list_deep_copy_object p h = as_object K policy_list (policy_list_deep_copy p h)

  -- The call through the interface.
  unfoldable pub deep_copy_object : Object K → Heap K → Option (Object K) × Heap K
  deep_copy_object (peer p) h = peer_deep_copy_object p h
  deep_copy_object (peer_list p) h = peer_list_deep_copy_object p h
  deep_copy_object (path p) h = path_deep_copy_object p h
  deep_copy_object (path_list p) h = path_list_deep_copy_object p h
  deep_copy_object (policy p) h = policy_deep_copy_object p h
  deep_copy_object (policy_list p) h = policy_list_deep_copy_object p h
