-- ===== src/Tests/Copying.antt =====
-- Deep copies in a memory where the metadata of an object is its name and a map of labels, and a
-- selector is such a map.
use cillion.Base.{
  ℕ, zero, suc, ◌≤◌, ◌<◌, String, ◌≡◌, ◌⊎◌, refl, Option, none, some, List, [], ◌∷◌, arith,
}
use cillion.Api.{ObjectMeta, object_meta, Condition, condition_true}
use cillion.DeepCopy.Memory.{
  Kinds, Policy, Cell, Heap, alloc, SameIn, content, text, conditions, policies,
}
use cillion.DeepCopy.Copies.{
  Library, copy_text, copy_all, copy_items, copy_conditions, status_deep_copy_into,
  policy_spec_deep_copy_into, policy_deep_copy_into, list_deep_copy_into,
  policy_list_deep_copy_into,
}
use cillion.DeepCopy.Objects.{Object, policy_list, deep_copy_object}
use cillion.DeepCopy.Shape.{
  Shape, IsDeep, plain, plain-IsStable, plain-Copied, via, via-IsStable, via-Copied, leaf,
  leaf-IsStable, leaf-nil, leaf-alloc,
}
use cillion.DeepCopy.Leaves.{IsLawful}
use cillion.DeepCopy.Meaning.{IsAllocated, meant, is_some, holds_pointer}
use cillion.DeepCopy.Independence.{write, deep_copy_object-meant, deep_copy_object-write}

abbrev Labels : Type 0
Labels = List (String × String)

record NameAndLabels : Type 0 where
  name : String
  labels : Option ℕ

abbrev kinds : Kinds
kinds = record {
  ObjectMeta = NameAndLabels;
  ListMeta = String;
  LabelSelector = Option ℕ;
  Content = Labels;
}

abbrev labels_in : Cell kinds → Labels
labels_in (content ls) = ls
labels_in _ = []

unfoldable copy_labels : Option ℕ → Heap kinds → Option ℕ × Heap kinds
copy_labels none h = (none, h)
copy_labels (some a) h =
    let (b, h') = alloc kinds (content (labels_in (h.cells a))) h in (some b, h')

unfoldable copy_named : NameAndLabels → Heap kinds → NameAndLabels × Heap kinds
copy_named m h = let (p, h') = copy_labels m.labels h in (record m { labels = p }, h')

abbrev library : Library kinds
library = record {
  copy_meta = copy_named;
  copy_list_meta = λ m h. (m, h);
  copy_selector = copy_labels;
  copy_condition = λ c. c;
}

abbrev labelled : Shape kinds (Option ℕ) Labels
labelled = leaf kinds labels_in []

abbrev made : NameAndLabels → Labels → ObjectMeta
made m ls = record (object_meta m.name "default") { labels = ls }

copy_labels-IsDeep : IsDeep kinds labelled copy_labels
unfolding copy_labels
copy_labels-IsDeep h none old = leaf-nil kinds labels_in [] h
copy_labels-IsDeep h (some a) old =
    leaf-alloc kinds labels_in [] h a (content (labels_in (h.cells a))) refl

copy_named-IsDeep : IsDeep kinds (via kinds labelled (λ m. m.labels) made) copy_named
unfolding copy_named
copy_named-IsDeep h m old =
    via-Copied kinds labelled (λ m. m.labels) made h (copy_named m h).1 m (copy_named m h).0
      (λ v. refl) (copy_labels-IsDeep h m.labels old)

abbrev library-IsLawful : IsLawful kinds library
library-IsLawful = record {
  Selector = Labels;
  ListValue = String;
  meta = via kinds labelled (λ m. m.labels) made;
  list_meta = plain kinds;
  selector = labelled;
  meta_stable = via-IsStable kinds labelled (λ m. m.labels) made (leaf-IsStable kinds labels_in []);
  list_meta_stable = plain-IsStable kinds;
  selector_stable = leaf-IsStable kinds labels_in [];
  copy_meta-IsDeep = copy_named-IsDeep;
  copy_list_meta-IsDeep = λ h x old. plain-Copied kinds h x;
  copy_selector-IsDeep = copy_labels-IsDeep;
  copy_condition_lem = λ c. refl;
}

-- A list of one policy: its labels and selector in cell 0, which the two share, its preference in
-- cell 1, its conditions in cell 2, the list in cell 3.
abbrev ready : Condition
ready = record {
  type_ = "Ready";
  status = condition_true;
  observed_generation = 1;
  last_transition_time = 0;
  reason = "";
  message = "";
}

abbrev one_policy : Policy kinds
one_policy = record {
  type_meta = record { kind = "ScionPathPolicy"; api_version = "cillion.io/v1alpha1" };
  meta = record { name = "a"; labels = some 0 };
  spec = record { pod_selector = some 0; preference = some 1 };
  status = record { conditions = some 2 };
}

abbrev cells : ℕ → Cell kinds
cells zero = content (("app", "web") ∷ [])
cells (suc zero) = text "shortest"
cells (suc (suc zero)) = conditions (ready ∷ [])
cells _ = policies (one_policy ∷ [])

abbrev memory : Heap kinds
memory = record { cells = cells; next = 4 }

abbrev one_item : Object kinds
one_item = policy_list (
    some (record {
      type_meta = record { kind = "ScionPathPolicyList"; api_version = "cillion.io/v1alpha1" };
      meta = "";
      items = some 3;
    }))

one_item-IsAllocated : IsAllocated kinds library library-IsLawful memory one_item
one_item-IsAllocated =
    (tt, (omega arith, ((omega arith, ((omega arith, omega arith), omega arith)), tt)))

deep_copy_object-meant_example :
    let o' = (deep_copy_object kinds library one_item memory).0 in
    let h' = (deep_copy_object kinds library one_item memory).1 in
    (is_some kinds library library-IsLawful o'
      ≡ holds_pointer kinds library library-IsLawful one_item)
    × SameIn kinds 0 4 memory h'
    × (meant kinds library library-IsLawful h' o'
        ≡ meant kinds library library-IsLawful memory (some one_item))
deep_copy_object-meant_example =
    deep_copy_object-meant kinds library library-IsLawful memory one_item one_item-IsAllocated

deep_copy_object-write_example :
    let o' = (deep_copy_object kinds library one_item memory).0 in
    let g =
      write kinds library library-IsLawful 1
        (text "latency")
        (deep_copy_object kinds library one_item memory).1 in
    ((1 < 4)
      × (meant kinds library library-IsLawful g o'
          ≡ meant kinds library library-IsLawful memory (some one_item)))
    ⊎ ((4 ≤ 1)
        × (meant kinds library library-IsLawful g (some one_item)
            ≡ meant kinds library library-IsLawful memory (some one_item)))
deep_copy_object-write_example =
    deep_copy_object-write kinds library library-IsLawful memory one_item 1 (text "latency")
      one_item-IsAllocated

-- The copy has five new cells.
copied_next : (deep_copy_object kinds library one_item memory).1.next ≡ 9
unfolding deep_copy_object policy_list_deep_copy_into list_deep_copy_into copy_items copy_all alloc
    policy_deep_copy_into policy_spec_deep_copy_into status_deep_copy_into copy_conditions copy_text
    copy_named copy_labels
copied_next = refl
