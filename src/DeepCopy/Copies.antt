-- ===== src/DeepCopy/Copies.antt =====
-- The generated functions. `DeepCopyInto` overwrites the whole of its target, which it returns here.
use cillion.Base.{ℕ, Option, none, some, List, [], ◌∷◌}
use cillion.Api.{Condition, ScionClusterPeerSpec}
use cillion.DeepCopy.Memory.{
  Kinds, Status, PathSpec, PolicySpec, Peer, ComputedPath, Policy, Items, Heap, alloc, Cell, bytes,
  text, conditions, peers, paths, policies, bytes_in, text_in, conditions_in, peers_in, paths_in,
  policies_in,
}

-- The generated functions of apimachinery.
pub record Library (K : Kinds) : Type 0 where
  pub copy_meta : K.ObjectMeta → Heap K → K.ObjectMeta × Heap K
  pub copy_list_meta : K.ListMeta → Heap K → K.ListMeta × Heap K
  pub copy_selector : K.LabelSelector → Heap K → K.LabelSelector × Heap K
  pub copy_condition : Condition → Condition

module _ (K : Kinds) where
  abbrev pub pointer_to : ℕ × Heap K → Option ℕ × Heap K
  pointer_to (a, h) = (some a, h)

  -- `if in.HopFields != nil { … make([]byte, len(*in)); copy(*out, *in) }`
  unfoldable pub copy_bytes : Option ℕ → Heap K → Option ℕ × Heap K
  unfolding alloc
  copy_bytes none h = (none, h)
  copy_bytes (some a) h = pointer_to (alloc K (bytes (bytes_in K (h.cells a))) h)

  -- `if in.Preference != nil { … new(string); **out = **in }`
  unfoldable pub copy_text : Option ℕ → Heap K → Option ℕ × Heap K
  unfolding alloc
  copy_text none h = (none, h)
  copy_text (some a) h = pointer_to (alloc K (text (text_in K (h.cells a))) h)

  -- The loop over the items of a list.
  unfoldable pub copy_all :
      {A : Type 0} → (A → Heap K → A × Heap K) → List A → Heap K → List A × Heap K
  copy_all f [] h = ([], h)
  copy_all f (x ∷ xs) h = let (y, h') = f x h in let (ys, h'') = copy_all f xs h' in (y ∷ ys, h'')

  -- `if in.Items != nil { … make(…); for i := range *in { … } }`. The array is allocated behind
  -- what its items allocate.
  unfoldable pub copy_items :
      {A : Type 0}
      → (A → Heap K → A × Heap K)
      → (Cell K → List A)
      → (List A → Cell K)
      → Option ℕ
      → Heap K
      → Option ℕ × Heap K
  unfolding copy_all alloc
  copy_items f items_in items none h = (none, h)
  copy_items f items_in items (some a) h =
      let (ys, h') = copy_all f (items_in (h.cells a)) h in pointer_to (alloc K (items ys) h')

module _ (K : Kinds) (L : Library K) where
  abbrev pub copied_conditions : List Condition → List Condition
  copied_conditions [] = []
  copied_conditions (c ∷ cs) = L.copy_condition c ∷ copied_conditions cs

  -- `if in.Conditions != nil { … make(…); for i := range *in { … } }`
  unfoldable pub copy_conditions : Option ℕ → Heap K → Option ℕ × Heap K
  unfolding alloc
  copy_conditions none h = (none, h)
  copy_conditions (some a) h =
      pointer_to K (alloc K (conditions (copied_conditions (conditions_in K (h.cells a)))) h)

  -- `ScionClusterPeerStatus`; the other two are the same.
  unfoldable pub status_deep_copy_into : Status → Heap K → Status × Heap K
  unfolding copy_conditions
  status_deep_copy_into st h =
      let (c, h') = copy_conditions st.conditions h in (record st { conditions = c }, h')

  abbrev pub path_status_deep_copy_into : Status → Heap K → Status × Heap K
  path_status_deep_copy_into = status_deep_copy_into

  abbrev pub policy_status_deep_copy_into : Status → Heap K → Status × Heap K
  policy_status_deep_copy_into = status_deep_copy_into

  abbrev pub peer_spec_deep_copy_into :
      ScionClusterPeerSpec → Heap K → ScionClusterPeerSpec × Heap K
  peer_spec_deep_copy_into spec h = (spec, h)

  unfoldable pub path_spec_deep_copy_into : PathSpec → Heap K → PathSpec × Heap K
  unfolding copy_bytes
  path_spec_deep_copy_into spec h =
      let (p, h') = copy_bytes K spec.hop_fields h in (record spec { hop_fields = p }, h')

  unfoldable pub policy_spec_deep_copy_into : PolicySpec K → Heap K → PolicySpec K × Heap K
  unfolding copy_text
  policy_spec_deep_copy_into spec h =
      let (s, h1) = L.copy_selector spec.pod_selector h in
      let (p, h2) = copy_text K spec.preference h1 in
      (record spec { pod_selector = s; preference = p }, h2)

  unfoldable pub peer_deep_copy_into : Peer K → Heap K → Peer K × Heap K
  unfolding status_deep_copy_into
  peer_deep_copy_into o h =
      let (m, h1) = L.copy_meta o.meta h in
      let (spec, h2) = peer_spec_deep_copy_into o.spec h1 in
      let (st, h3) = status_deep_copy_into o.status h2 in
      (record o { meta = m; spec = spec; status = st }, h3)

  unfoldable pub path_deep_copy_into : ComputedPath K → Heap K → ComputedPath K × Heap K
  unfolding path_spec_deep_copy_into status_deep_copy_into
  path_deep_copy_into o h =
      let (m, h1) = L.copy_meta o.meta h in
      let (spec, h2) = path_spec_deep_copy_into o.spec h1 in
      let (st, h3) = path_status_deep_copy_into o.status h2 in
      (record o { meta = m; spec = spec; status = st }, h3)

  unfoldable pub policy_deep_copy_into : Policy K → Heap K → Policy K × Heap K
  unfolding policy_spec_deep_copy_into status_deep_copy_into
  policy_deep_copy_into o h =
      let (m, h1) = L.copy_meta o.meta h in
      let (spec, h2) = policy_spec_deep_copy_into o.spec h1 in
      let (st, h3) = policy_status_deep_copy_into o.status h2 in
      (record o { meta = m; spec = spec; status = st }, h3)

  -- `DeepCopyInto` of a list, by the function of its items.
  unfoldable pub list_deep_copy_into :
      {A : Type 0}
      → (A → Heap K → A × Heap K)
      → (Cell K → List A)
      → (List A → Cell K)
      → Items K
      → Heap K
      → Items K × Heap K
  unfolding copy_items
  list_deep_copy_into f items_in items o h =
      let (m, h1) = L.copy_list_meta o.meta h in
      let (p, h2) = copy_items K f items_in items o.items h1 in
      (record o { meta = m; items = p }, h2)

  unfoldable pub peer_list_deep_copy_into : Items K → Heap K → Items K × Heap K
  unfolding list_deep_copy_into peer_deep_copy_into
  peer_list_deep_copy_into = list_deep_copy_into peer_deep_copy_into (peers_in K) peers

  unfoldable pub path_list_deep_copy_into : Items K → Heap K → Items K × Heap K
  unfolding list_deep_copy_into path_deep_copy_into
  path_list_deep_copy_into = list_deep_copy_into path_deep_copy_into (paths_in K) paths

  unfoldable pub policy_list_deep_copy_into : Items K → Heap K → Items K × Heap K
  unfolding list_deep_copy_into policy_deep_copy_into
  policy_list_deep_copy_into = list_deep_copy_into policy_deep_copy_into (policies_in K) policies
