-- ===== src/DeepCopy/Meaning.antt =====
-- What a runtime object stands for, and that `DeepCopyObject` is deep.
use cillion.Base.{
  nat_eq, ◌≡◌, refl, ap, sym, ◌∙◌, Bool, true, false, Option, none, some, List, arith,
}
use cillion.Api.{ScionClusterPeer, ScionComputedPath, ScionPathPolicy}
use cillion.DeepCopy.Memory.{Kinds, TypeMeta, Heap, SameIn}
use cillion.DeepCopy.Copies.{
  Library, peer_deep_copy_into, path_deep_copy_into, policy_deep_copy_into,
  peer_list_deep_copy_into, path_list_deep_copy_into, policy_list_deep_copy_into,
}
use cillion.DeepCopy.Objects.{
  deep_copy, Object, peer, peer_list, path, path_list, policy, policy_list, as_object,
  deep_copy_object,
}
use cillion.DeepCopy.Shape.{Shape, Copied, IsDeep}
use cillion.DeepCopy.Leaves.{IsLawful}
use cillion.DeepCopy.Structs.{
  peer_shape, peer-IsStable, peer_deep_copy_into-IsDeep, path_shape, path-IsStable,
  path_deep_copy_into-IsDeep, policy_shape, policy-IsStable, policy_deep_copy_into-IsDeep,
}
use cillion.DeepCopy.Lists.{
  peer_list_shape, peer_list-IsStable, peer_list_deep_copy_into-IsDeep, path_list_shape,
  path_list-IsStable, path_list_deep_copy_into-IsDeep, policy_list_shape, policy_list-IsStable,
  policy_list_deep_copy_into-IsDeep,
}

-- What an object stands for: a resource of the API, or a list of them.
pub data Described (Selector ListValue : Type 0) : Type 0 where
  a_peer : TypeMeta × ScionClusterPeer → Described Selector ListValue
  peers : TypeMeta × (ListValue × List (TypeMeta × ScionClusterPeer)) → Described Selector ListValue
  a_path : TypeMeta × ScionComputedPath → Described Selector ListValue
  paths :
      TypeMeta × (ListValue × List (TypeMeta × ScionComputedPath)) → Described Selector ListValue
  a_policy : TypeMeta × ScionPathPolicy Selector → Described Selector ListValue
  policies :
      TypeMeta × (ListValue × List (TypeMeta × ScionPathPolicy Selector))
      → Described Selector ListValue

module _ (K : Kinds) (L : Library K) (law : IsLawful K L) where
  abbrev pub Meaning : Type 0
  Meaning = Option (Described law.Selector law.ListValue)

  abbrev pub meaning : Heap K → Object K → Meaning
  meaning h (peer none) = none
  meaning h (peer (some o)) = some (a_peer ((peer_shape K L law).value h o))
  meaning h (peer_list none) = none
  meaning h (peer_list (some o)) = some (peers ((peer_list_shape K L law).value h o))
  meaning h (path none) = none
  meaning h (path (some o)) = some (a_path ((path_shape K L law).value h o))
  meaning h (path_list none) = none
  meaning h (path_list (some o)) = some (paths ((path_list_shape K L law).value h o))
  meaning h (policy none) = none
  meaning h (policy (some o)) = some (a_policy ((policy_shape K L law).value h o))
  meaning h (policy_list none) = none
  meaning h (policy_list (some o)) = some (policies ((policy_list_shape K L law).value h o))

  -- All that the object points to is allocated.
  abbrev pub IsAllocated : Heap K → Object K → Type 0
  IsAllocated h (peer none) = Unit
  IsAllocated h (peer (some o)) = (peer_shape K L law).IsOld h o
  IsAllocated h (peer_list none) = Unit
  IsAllocated h (peer_list (some o)) = (peer_list_shape K L law).IsOld h o
  IsAllocated h (path none) = Unit
  IsAllocated h (path (some o)) = (path_shape K L law).IsOld h o
  IsAllocated h (path_list none) = Unit
  IsAllocated h (path_list (some o)) = (path_list_shape K L law).IsOld h o
  IsAllocated h (policy none) = Unit
  IsAllocated h (policy (some o)) = (policy_shape K L law).IsOld h o
  IsAllocated h (policy_list none) = Unit
  IsAllocated h (policy_list (some o)) = (policy_list_shape K L law).IsOld h o

  -- The meaning of a reference that may be nil.
  abbrev pub meant : Heap K → Option (Object K) → Meaning
  meant h none = none
  meant h (some o) = meaning h o

  abbrev pub PointsToOld : Heap K → Option (Object K) → Type 0
  PointsToOld h none = Unit
  PointsToOld h (some o) = IsAllocated h o

  abbrev pub reference : Shape K (Option (Object K)) Meaning
  reference = record { value = meant; IsOld = PointsToOld }

  abbrev pub holds_pointer : Object K → Bool
  holds_pointer (peer none) = false
  holds_pointer (peer (some o)) = true
  holds_pointer (peer_list none) = false
  holds_pointer (peer_list (some o)) = true
  holds_pointer (path none) = false
  holds_pointer (path (some o)) = true
  holds_pointer (path_list none) = false
  holds_pointer (path_list (some o)) = true
  holds_pointer (policy none) = false
  holds_pointer (policy (some o)) = true
  holds_pointer (policy_list none) = false
  holds_pointer (policy_list (some o)) = true

  abbrev pub is_some : Option (Object K) → Bool
  is_some none = false
  is_some (some o) = true

  pub object_same :
      (o : Object K) (h g : Heap K)
      → IsAllocated h o
      → SameIn K 0 h.next h g
      → meaning g o ≡ meaning h o
  object_same (peer none) h g old same = refl
  object_same (peer (some o)) h g old same =
      λ i. some (a_peer ((peer-IsStable K L law).value_same o h g old same i))
  object_same (peer_list none) h g old same = refl
  object_same (peer_list (some o)) h g old same =
      λ i. some (peers ((peer_list-IsStable K L law).value_same o h g old same i))
  object_same (path none) h g old same = refl
  object_same (path (some o)) h g old same =
      λ i. some (a_path ((path-IsStable K L law).value_same o h g old same i))
  object_same (path_list none) h g old same = refl
  object_same (path_list (some o)) h g old same =
      λ i. some (paths ((path_list-IsStable K L law).value_same o h g old same i))
  object_same (policy none) h g old same = refl
  object_same (policy (some o)) h g old same =
      λ i. some (a_policy ((policy-IsStable K L law).value_same o h g old same i))
  object_same (policy_list none) h g old same = refl
  object_same (policy_list (some o)) h g old same =
      λ i. some (policies ((policy_list-IsStable K L law).value_same o h g old same i))

  -- A copy through the interface is deep when the copy of the struct is.
  module _ {A V : Type 0} (S : Shape K A V) (f : A → Heap K → A × Heap K) (deep : IsDeep K S f)
      (wrap : Option A → Object K) (describe : V → Described law.Selector law.ListValue)
      (meaning_some : (h : Heap K) (x : A)
        → meaning h (wrap (some x)) ≡ some (describe (S.value h x)))
      (meaning_none : (h : Heap K) → meaning h (wrap none) ≡ none) where
    as_object-Copied :
        (h : Heap K) (x : A)
        → S.IsOld h x
        → Copied K reference h
            (some (wrap (some x)))
            (as_object K wrap (deep_copy K f (some x) h)).0
            (as_object K wrap (deep_copy K f (some x) h)).1
    as_object-Copied h x old =
        let c = deep h x old in
        record {
          grows = c.grows;
          kept = c.kept;
          copied = λ g same.
              meaning_some g (f x h).0
              ∙ ap (λ v. some (describe v)) (c.copied g same)
              ∙ sym (meaning_some h x);
        }

    as_object-nil :
        (h : Heap K)
        → Copied K reference h
            (some (wrap none))
            (as_object K wrap (deep_copy K f none h)).0
            (as_object K wrap (deep_copy K f none h)).1
    as_object-nil h = record {
      grows = omega arith;
      kept = λ a lo hi. refl;
      copied = λ g same. sym (meaning_none h);
    }

  pub deep_copy_object-Copied :
      (h : Heap K) (o : Object K)
      → IsAllocated h o
      → Copied K reference h (some o) (deep_copy_object K L o h).0 (deep_copy_object K L o h).1
  unfolding deep_copy_object
  deep_copy_object-Copied h (peer none) old =
      as_object-nil (peer_shape K L law) (peer_deep_copy_into K L)
        (peer_deep_copy_into-IsDeep K L law) peer a_peer (λ h o. refl) (λ h. refl) h
  deep_copy_object-Copied h (peer (some o)) old =
      as_object-Copied (peer_shape K L law) (peer_deep_copy_into K L)
        (peer_deep_copy_into-IsDeep K L law) peer a_peer (λ h o. refl) (λ h. refl) h o old
  deep_copy_object-Copied h (peer_list none) old =
      as_object-nil (peer_list_shape K L law) (peer_list_deep_copy_into K L)
        (peer_list_deep_copy_into-IsDeep K L law) peer_list peers (λ h o. refl) (λ h. refl) h
  deep_copy_object-Copied h (peer_list (some o)) old =
      as_object-Copied (peer_list_shape K L law) (peer_list_deep_copy_into K L)
        (peer_list_deep_copy_into-IsDeep K L law) peer_list peers (λ h o. refl) (λ h. refl) h o old
  deep_copy_object-Copied h (path none) old =
      as_object-nil (path_shape K L law) (path_deep_copy_into K L)
        (path_deep_copy_into-IsDeep K L law) path a_path (λ h o. refl) (λ h. refl) h
  deep_copy_object-Copied h (path (some o)) old =
      as_object-Copied (path_shape K L law) (path_deep_copy_into K L)
        (path_deep_copy_into-IsDeep K L law) path a_path (λ h o. refl) (λ h. refl) h o old
  deep_copy_object-Copied h (path_list none) old =
      as_object-nil (path_list_shape K L law) (path_list_deep_copy_into K L)
        (path_list_deep_copy_into-IsDeep K L law) path_list paths (λ h o. refl) (λ h. refl) h
  deep_copy_object-Copied h (path_list (some o)) old =
      as_object-Copied (path_list_shape K L law) (path_list_deep_copy_into K L)
        (path_list_deep_copy_into-IsDeep K L law) path_list paths (λ h o. refl) (λ h. refl) h o old
  deep_copy_object-Copied h (policy none) old =
      as_object-nil (policy_shape K L law) (policy_deep_copy_into K L)
        (policy_deep_copy_into-IsDeep K L law) policy a_policy (λ h o. refl) (λ h. refl) h
  deep_copy_object-Copied h (policy (some o)) old =
      as_object-Copied (policy_shape K L law) (policy_deep_copy_into K L)
        (policy_deep_copy_into-IsDeep K L law) policy a_policy (λ h o. refl) (λ h. refl) h o old
  deep_copy_object-Copied h (policy_list none) old =
      as_object-nil (policy_list_shape K L law) (policy_list_deep_copy_into K L)
        (policy_list_deep_copy_into-IsDeep K L law) policy_list policies (λ h o. refl) (λ h. refl) h
  deep_copy_object-Copied h (policy_list (some o)) old =
      as_object-Copied (policy_list_shape K L law) (policy_list_deep_copy_into K L)
        (policy_list_deep_copy_into-IsDeep K L law) policy_list policies (λ h o. refl) (λ h. refl) h
        o old

  pub returned_lem :
      (h : Heap K) (o : Object K) → is_some (deep_copy_object K L o h).0 ≡ holds_pointer o
  unfolding deep_copy_object
  returned_lem h (peer none) = refl
  returned_lem h (peer (some o)) = refl
  returned_lem h (peer_list none) = refl
  returned_lem h (peer_list (some o)) = refl
  returned_lem h (path none) = refl
  returned_lem h (path (some o)) = refl
  returned_lem h (path_list none) = refl
  returned_lem h (path_list (some o)) = refl
  returned_lem h (policy none) = refl
  returned_lem h (policy (some o)) = refl
  returned_lem h (policy_list none) = refl
  returned_lem h (policy_list (some o)) = refl
