-- ===== src/DeepCopy/Leaves.antt =====
-- What the copies of apimachinery promise, and the copies behind one pointer.
use cillion.Base.{ℕ, ◌≡◌, refl, String, Option, none, some, List, [], ◌∷◌}
use cillion.Api.{ObjectMeta, Condition}
use cillion.DeepCopy.Memory.{Kinds, Cell, text, bytes, conditions, bytes_in, text_in, conditions_in}
use cillion.DeepCopy.Copies.{Library, copy_bytes, copy_text, copied_conditions, copy_conditions}
use cillion.DeepCopy.Shape.{Shape, IsStable, IsDeep, leaf, leaf-nil, leaf-alloc}

-- What the deep copies of apimachinery promise.
pub record IsLawful (K : Kinds) (L : Library K) : Type 1 where
  pub Selector : Type 0
  pub ListValue : Type 0
  pub meta : Shape K K.ObjectMeta ObjectMeta
  pub list_meta : Shape K K.ListMeta ListValue
  pub selector : Shape K K.LabelSelector Selector
  pub meta_stable : IsStable K meta
  pub list_meta_stable : IsStable K list_meta
  pub selector_stable : IsStable K selector
  pub copy_meta-IsDeep : IsDeep K meta L.copy_meta
  pub copy_list_meta-IsDeep : IsDeep K list_meta L.copy_list_meta
  pub copy_selector-IsDeep : IsDeep K selector L.copy_selector
  pub copy_condition_lem : (c : Condition) → L.copy_condition c ≡ c

module _ (K : Kinds) where
  abbrev pub some_text : Cell K → Option String
  some_text c = some (text_in K c)

  abbrev pub hop_fields : Shape K (Option ℕ) (List ℕ)
  hop_fields = leaf K (bytes_in K) []

  abbrev pub preference : Shape K (Option ℕ) (Option String)
  preference = leaf K some_text none

  abbrev pub conditions_of : Shape K (Option ℕ) (List Condition)
  conditions_of = leaf K (conditions_in K) []

  pub copy_bytes-IsDeep : IsDeep K hop_fields (copy_bytes K)
  unfolding copy_bytes
  copy_bytes-IsDeep h none old = leaf-nil K (bytes_in K) [] h
  copy_bytes-IsDeep h (some a) old =
      leaf-alloc K (bytes_in K) [] h a (bytes (bytes_in K (h.cells a))) refl

  pub copy_text-IsDeep : IsDeep K preference (copy_text K)
  unfolding copy_text
  copy_text-IsDeep h none old = leaf-nil K some_text none h
  copy_text-IsDeep h (some a) old =
      leaf-alloc K some_text none h a (text (text_in K (h.cells a))) refl

module _ (K : Kinds) (L : Library K) (law : IsLawful K L) where
  copied_conditions_lem : (cs : List Condition) → copied_conditions K L cs ≡ cs
  copied_conditions_lem [] = refl
  copied_conditions_lem (c ∷ cs) = λ i. law.copy_condition_lem c i ∷ copied_conditions_lem cs i

  pub copy_conditions-IsDeep : IsDeep K (conditions_of K) (copy_conditions K L)
  unfolding copy_conditions
  copy_conditions-IsDeep h none old = leaf-nil K (conditions_in K) [] h
  copy_conditions-IsDeep h (some a) old =
      leaf-alloc K (conditions_in K) [] h a
        (conditions (copied_conditions K L (conditions_in K (h.cells a))))
        (copied_conditions_lem (conditions_in K (h.cells a)))
