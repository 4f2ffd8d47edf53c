-- ===== src/DeepCopy/Lists.antt =====
-- The copies of the three lists are deep.
use cillion.Base.{ℕ, ◌≡◌, refl, Option, List}
use cillion.Api.{ScionClusterPeer, ScionComputedPath, ScionPathPolicy}
use cillion.DeepCopy.Memory.{
  Kinds, TypeMeta, Items, Heap, Cell, peers, paths, policies, peers_in, paths_in, policies_in,
}
use cillion.DeepCopy.Copies.{
  Library, copy_items, list_deep_copy_into, peer_list_deep_copy_into, path_list_deep_copy_into,
  policy_list_deep_copy_into, peer_deep_copy_into, path_deep_copy_into, policy_deep_copy_into,
}
use cillion.DeepCopy.Shape.{
  Shape, IsStable, IsDeep, pair, both, via, via-IsStable, via-Copied, pair-IsStable,
}
use cillion.DeepCopy.Leaves.{IsLawful}
use cillion.DeepCopy.Slices.{slice, slice-IsStable, copy_items-IsDeep}
use cillion.DeepCopy.Structs.{
  peer_shape, peer-IsStable, peer_deep_copy_into-IsDeep, path_shape, path-IsStable,
  path_deep_copy_into-IsDeep, policy_shape, policy-IsStable, policy_deep_copy_into-IsDeep,
}

module _ (K : Kinds) (L : Library K) (law : IsLawful K L) where
  abbrev list_parts : Items K → K.ListMeta × Option ℕ
  list_parts o = (o.meta, o.items)

  abbrev list_made :
      {V : Type 0} → Items K → law.ListValue × List V → TypeMeta × (law.ListValue × List V)
  list_made o v = (o.type_meta, v)

  module _ {A V : Type 0} (S : Shape K A V) (items_in : Cell K → List A) where
    abbrev list_shape : Shape K (Items K) (TypeMeta × (law.ListValue × List V))
    list_shape = via K (pair K law.list_meta (slice K S items_in)) list_parts list_made

    list-IsStable : IsStable K S → IsStable K list_shape
    list-IsStable s =
        via-IsStable K (pair K law.list_meta (slice K S items_in)) list_parts list_made (
          pair-IsStable K law.list_meta (slice K S items_in) law.list_meta_stable
            (slice-IsStable K S s items_in))

    list_deep_copy_into-IsDeep :
        (f : A → Heap K → A × Heap K) (items : List A → Cell K)
        → IsStable K S
        → IsDeep K S f
        → ((xs : List A) → items_in (items xs) ≡ xs)
        → IsDeep K list_shape (list_deep_copy_into K L f items_in items)
    unfolding list_deep_copy_into
    list_deep_copy_into-IsDeep f items s deep inverse h o (old_m, old) =
        let m = (L.copy_list_meta o.meta h).0 in
        let h1 = (L.copy_list_meta o.meta h).1 in
        let p = (copy_items K f items_in items o.items h1).0 in
        let h2 = (copy_items K f items_in items o.items h1).1 in
        via-Copied K (pair K law.list_meta (slice K S items_in)) list_parts list_made h h2 o
          (list_deep_copy_into K L f items_in items o h).0 (λ v. refl)
          (both K law.list_meta (slice K S items_in) h h1 h2 o.meta m o.items p
            (slice-IsStable K S s items_in) old (law.copy_list_meta-IsDeep h o.meta old_m)
            (copy_items-IsDeep K S s f deep items_in items inverse h1 o.items))

  abbrev pub peer_list_shape :
      Shape K (Items K) (TypeMeta × (law.ListValue × List (TypeMeta × ScionClusterPeer)))
  peer_list_shape = list_shape (peer_shape K L law) (peers_in K)

  pub peer_list-IsStable : IsStable K peer_list_shape
  peer_list-IsStable = list-IsStable (peer_shape K L law) (peers_in K) (peer-IsStable K L law)

  pub peer_list_deep_copy_into-IsDeep : IsDeep K peer_list_shape (peer_list_deep_copy_into K L)
  unfolding peer_list_deep_copy_into
  peer_list_deep_copy_into-IsDeep =
      list_deep_copy_into-IsDeep (peer_shape K L law) (peers_in K) (peer_deep_copy_into K L) peers
        (peer-IsStable K L law) (peer_deep_copy_into-IsDeep K L law) (λ xs. refl)

  abbrev pub path_list_shape :
      Shape K (Items K) (TypeMeta × (law.ListValue × List (TypeMeta × ScionComputedPath)))
  path_list_shape = list_shape (path_shape K L law) (paths_in K)

  pub path_list-IsStable : IsStable K path_list_shape
  path_list-IsStable = list-IsStable (path_shape K L law) (paths_in K) (path-IsStable K L law)

  pub path_list_deep_copy_into-IsDeep : IsDeep K path_list_shape (path_list_deep_copy_into K L)
  unfolding path_list_deep_copy_into
  path_list_deep_copy_into-IsDeep =
      list_deep_copy_into-IsDeep (path_shape K L law) (paths_in K) (path_deep_copy_into K L) paths
        (path-IsStable K L law) (path_deep_copy_into-IsDeep K L law) (λ xs. refl)

  abbrev pub policy_list_shape :
      Shape K
        (Items K)
        (TypeMeta × (law.ListValue × List (TypeMeta × ScionPathPolicy law.Selector)))
  policy_list_shape = list_shape (policy_shape K L law) (policies_in K)

  pub policy_list-IsStable : IsStable K policy_list_shape
  policy_list-IsStable =
      list-IsStable (policy_shape K L law) (policies_in K) (policy-IsStable K L law)

  pub policy_list_deep_copy_into-IsDeep :
      IsDeep K policy_list_shape (policy_list_deep_copy_into K L)
  unfolding policy_list_deep_copy_into
  policy_list_deep_copy_into-IsDeep =
      list_deep_copy_into-IsDeep (policy_shape K L law) (policies_in K) (policy_deep_copy_into K L)
        policies (policy-IsStable K L law) (policy_deep_copy_into-IsDeep K L law) (λ xs. refl)
