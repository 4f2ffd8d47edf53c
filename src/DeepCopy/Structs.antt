-- ===== src/DeepCopy/Structs.antt =====
-- The copies of the three resources are deep, by the objects of the API that they stand for.
use cillion.Base.{ℕ, refl, String, Option, none, List, []}
use cillion.Api.{
  ObjectMeta, Condition, ScionClusterPeer, ScionClusterPeerSpec, ScionComputedPath,
  ScionComputedPathSpec, ScionPathPolicy, ScionPathPolicySpec,
}
use cillion.DeepCopy.Memory.{
  Kinds, TypeMeta, PathSpec, PolicySpec, Peer, ComputedPath, Policy, Heap, bytes_in, conditions_in,
}
use cillion.DeepCopy.Copies.{
  Library, peer_spec_deep_copy_into, copy_text, copy_conditions, status_deep_copy_into,
  path_spec_deep_copy_into, policy_spec_deep_copy_into, peer_deep_copy_into, path_deep_copy_into,
  policy_deep_copy_into,
}
use cillion.DeepCopy.Shape.{
  Shape, IsStable, Copied, IsDeep, pair, both, via, via-IsStable, via-Copied, plain, plain-IsStable,
  plain-Copied, leaf-IsStable, pair-IsStable,
}
use cillion.DeepCopy.Leaves.{
  IsLawful, some_text, hop_fields, preference, conditions_of, copy_bytes-IsDeep, copy_text-IsDeep,
  copy_conditions-IsDeep,
}

module _ (K : Kinds) (L : Library K) (law : IsLawful K L) where
  -- The three parts of a resource that may hold pointers.
  abbrev resource :
      {A V : Type 0}
      → Shape K A V
      → Shape K (K.ObjectMeta × (A × Option ℕ)) (ObjectMeta × (V × List Condition))
  resource S = pair K law.meta (pair K S (conditions_of K))

  conditions-IsStable : IsStable K (conditions_of K)
  conditions-IsStable = leaf-IsStable K (conditions_in K) []

  resource-IsStable : {A V : Type 0} (S : Shape K A V) → IsStable K S → IsStable K (resource S)
  resource-IsStable S s =
      pair-IsStable K law.meta (pair K S (conditions_of K)) law.meta_stable
        (pair-IsStable K S (conditions_of K) s conditions-IsStable)

  resource-Copied :
      {A V : Type 0} (S : Shape K A V) (f : A → Heap K → A × Heap K) (h : Heap K) (m : K.ObjectMeta)
      (x : A) (c : Option ℕ)
      → IsStable K S
      → IsDeep K S f
      → (resource S).IsOld h (m, (x, c))
      → let h1 = (L.copy_meta m h).1 in
        let h2 = (f x h1).1 in
        Copied K
          (resource S)
          h
          (m, (x, c))
          ((L.copy_meta m h).0, ((f x h1).0, (copy_conditions K L c h2).0))
          (copy_conditions K L c h2).1
  resource-Copied S f h m x c s deep (old_m, old) =
      let m' = (L.copy_meta m h).0 in
      let h1 = (L.copy_meta m h).1 in
      let x' = (f x h1).0 in
      let h2 = (f x h1).1 in
      let c' = (copy_conditions K L c h2).0 in
      let h3 = (copy_conditions K L c h2).1 in
      both K law.meta (pair K S (conditions_of K)) h h1 h3 m m' (x, c) (x', c')
        (pair-IsStable K S (conditions_of K) s conditions-IsStable) old
        (law.copy_meta-IsDeep h m old_m)
        (λ (old_x, old_c).
          both K S (conditions_of K) h1 h2 h3 x x' c c' conditions-IsStable old_c (deep h1 x old_x)
            (copy_conditions-IsDeep K L law h2 c))

  -- The struct of a resource stands for the object of the API, beside its type.
  abbrev peer_parts : Peer K → K.ObjectMeta × (ScionClusterPeerSpec × Option ℕ)
  peer_parts o = (o.meta, (o.spec, o.status.conditions))

  abbrev peer_made :
      Peer K → ObjectMeta × (ScionClusterPeerSpec × List Condition) → TypeMeta × ScionClusterPeer
  peer_made o (m, (s, cs)) =
      (o.type_meta, record { meta = m; spec = s; status = record { conditions = cs } })

  abbrev pub peer_shape : Shape K (Peer K) (TypeMeta × ScionClusterPeer)
  peer_shape = via K (resource (plain K)) peer_parts peer_made

  pub peer-IsStable : IsStable K peer_shape
  peer-IsStable =
      via-IsStable K (resource (plain K)) peer_parts peer_made
        (resource-IsStable (plain K) (plain-IsStable K))

  pub peer_deep_copy_into-IsDeep : IsDeep K peer_shape (peer_deep_copy_into K L)
  unfolding peer_deep_copy_into status_deep_copy_into
  peer_deep_copy_into-IsDeep h o old =
      via-Copied K (resource (plain K)) peer_parts peer_made h (peer_deep_copy_into K L o h).1 o
        (peer_deep_copy_into K L o h).0 (λ v. refl)
        (resource-Copied (plain K) (peer_spec_deep_copy_into K L) h o.meta o.spec
          o.status.conditions (plain-IsStable K) (λ g x _. plain-Copied K g x) old)

  abbrev path_bytes : PathSpec → Option ℕ
  path_bytes s = s.hop_fields

  abbrev path_spec_made : PathSpec → List ℕ → ScionComputedPathSpec
  path_spec_made s bs = record {
    policy_ref = s.policy_ref;
    destination_cidr = s.destination_cidr;
    next_hop_ip = s.next_hop_ip;
    hop_fields = bs;
  }

  abbrev path_spec_shape : Shape K PathSpec ScionComputedPathSpec
  path_spec_shape = via K (hop_fields K) path_bytes path_spec_made

  path_spec-IsStable : IsStable K path_spec_shape
  path_spec-IsStable =
      via-IsStable K (hop_fields K) path_bytes path_spec_made (leaf-IsStable K (bytes_in K) [])

  path_spec_deep_copy_into-IsDeep : IsDeep K path_spec_shape (path_spec_deep_copy_into K L)
  unfolding path_spec_deep_copy_into
  path_spec_deep_copy_into-IsDeep h s old =
      via-Copied K (hop_fields K) path_bytes path_spec_made h (path_spec_deep_copy_into K L s h).1 s
        (path_spec_deep_copy_into K L s h).0 (λ v. refl) (copy_bytes-IsDeep K h s.hop_fields old)

  abbrev path_parts : ComputedPath K → K.ObjectMeta × (PathSpec × Option ℕ)
  path_parts o = (o.meta, (o.spec, o.status.conditions))

  abbrev path_made :
      ComputedPath K
      → ObjectMeta × (ScionComputedPathSpec × List Condition)
      → TypeMeta × ScionComputedPath
  path_made o (m, (s, cs)) =
      (o.type_meta, record { meta = m; spec = s; status = record { conditions = cs } })

  abbrev pub path_shape : Shape K (ComputedPath K) (TypeMeta × ScionComputedPath)
  path_shape = via K (resource path_spec_shape) path_parts path_made

  pub path-IsStable : IsStable K path_shape
  path-IsStable =
      via-IsStable K (resource path_spec_shape) path_parts path_made
        (resource-IsStable path_spec_shape path_spec-IsStable)

  pub path_deep_copy_into-IsDeep : IsDeep K path_shape (path_deep_copy_into K L)
  unfolding path_deep_copy_into status_deep_copy_into
  path_deep_copy_into-IsDeep h o old =
      via-Copied K (resource path_spec_shape) path_parts path_made h (path_deep_copy_into K L o h).1
        o (path_deep_copy_into K L o h).0 (λ v. refl)
        (resource-Copied path_spec_shape (path_spec_deep_copy_into K L) h o.meta o.spec
          o.status.conditions path_spec-IsStable path_spec_deep_copy_into-IsDeep old)

  abbrev spec_shape : Shape K (K.LabelSelector × Option ℕ) (law.Selector × Option String)
  spec_shape = pair K law.selector (preference K)

  spec-IsStable : IsStable K spec_shape
  spec-IsStable =
      pair-IsStable K law.selector (preference K) law.selector_stable
        (leaf-IsStable K (some_text K) none)

  abbrev policy_spec_parts : PolicySpec K → K.LabelSelector × Option ℕ
  policy_spec_parts s = (s.pod_selector, s.preference)

  abbrev policy_spec_made :
      PolicySpec K → law.Selector × Option String → ScionPathPolicySpec law.Selector
  policy_spec_made s (sel, pref) = record { pod_selector = sel; preference = pref }

  abbrev policy_spec_shape : Shape K (PolicySpec K) (ScionPathPolicySpec law.Selector)
  policy_spec_shape = via K spec_shape policy_spec_parts policy_spec_made

  policy_spec-IsStable : IsStable K policy_spec_shape
  policy_spec-IsStable = via-IsStable K spec_shape policy_spec_parts policy_spec_made spec-IsStable

  policy_spec_deep_copy_into-IsDeep : IsDeep K policy_spec_shape (policy_spec_deep_copy_into K L)
  unfolding policy_spec_deep_copy_into
  policy_spec_deep_copy_into-IsDeep h s (old_sel, old_pref) =
      let sel = (L.copy_selector s.pod_selector h).0 in
      let h1 = (L.copy_selector s.pod_selector h).1 in
      let pref = (copy_text K s.preference h1).0 in
      let h2 = (copy_text K s.preference h1).1 in
      via-Copied K spec_shape policy_spec_parts policy_spec_made h h2 s
        (policy_spec_deep_copy_into K L s h).0 (λ v. refl)
        (both K law.selector (preference K) h h1 h2 s.pod_selector sel s.preference pref
          (leaf-IsStable K (some_text K) none) old_pref
          (law.copy_selector-IsDeep h s.pod_selector old_sel) (copy_text-IsDeep K h1 s.preference))

  abbrev policy_parts : Policy K → K.ObjectMeta × (PolicySpec K × Option ℕ)
  policy_parts o = (o.meta, (o.spec, o.status.conditions))

  abbrev policy_made :
      Policy K
      → ObjectMeta × (ScionPathPolicySpec law.Selector × List Condition)
      → TypeMeta × ScionPathPolicy law.Selector
  policy_made o (m, (s, cs)) =
      (o.type_meta, record { meta = m; spec = s; status = record { conditions = cs } })

  abbrev pub policy_shape : Shape K (Policy K) (TypeMeta × ScionPathPolicy law.Selector)
  policy_shape = via K (resource policy_spec_shape) policy_parts policy_made

  pub policy-IsStable : IsStable K policy_shape
  policy-IsStable =
      via-IsStable K (resource policy_spec_shape) policy_parts policy_made
        (resource-IsStable policy_spec_shape policy_spec-IsStable)

  pub policy_deep_copy_into-IsDeep : IsDeep K policy_shape (policy_deep_copy_into K L)
  unfolding policy_deep_copy_into status_deep_copy_into
  policy_deep_copy_into-IsDeep h o old =
      via-Copied K (resource policy_spec_shape) policy_parts policy_made h
        (policy_deep_copy_into K L o h).1 o (policy_deep_copy_into K L o h).0 (λ v. refl)
        (resource-Copied policy_spec_shape (policy_spec_deep_copy_into K L) h o.meta o.spec
          o.status.conditions policy_spec-IsStable policy_spec_deep_copy_into-IsDeep old)
