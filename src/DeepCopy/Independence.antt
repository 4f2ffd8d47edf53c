-- ===== src/DeepCopy/Independence.antt =====
-- `DeepCopyObject` of the six runtime objects: the copy stands for the same resource, and no later
-- write to memory reaches both it and the original.
use cillion.Base.{
  ℕ, ◌≤◌, ◌<◌, ◌==◌, nat_eq, if◌then◌else◌, ◌≡◌, ◌⊎◌, inl, inr, refl, ◌∙◌, some, arith,
  below_or_above,
}
use cillion.DeepCopy.Memory.{Kinds, Heap, Cell, SameIn}
use cillion.DeepCopy.Copies.{Library}
use cillion.DeepCopy.Objects.{Object, deep_copy_object}
use cillion.DeepCopy.Leaves.{IsLawful}
use cillion.DeepCopy.Meaning.{
  IsAllocated, meant, holds_pointer, is_some, object_same, deep_copy_object-Copied, returned_lem,
}

module _ (K : Kinds) (L : Library K) (law : IsLawful K L) where
  -- Where the copies of apimachinery's own types are deep: for an object of any of the six types
  -- whose pointers are to allocated cells, `DeepCopyObject` returns nil exactly for a nil pointer,
  -- leaves what every allocated cell holds as it was, and returns an object that stands for the
  -- same resource or list, with its type: name, metadata, spec, conditions and items in their
  -- order.
  pub deep_copy_object-meant :
      (h : Heap K) (o : Object K)
      → IsAllocated K L law h o
      → let o' = (deep_copy_object K L o h).0 in
        let h' = (deep_copy_object K L o h).1 in
        (is_some K L law o' ≡ holds_pointer K L law o)
        × SameIn K 0 h.next h h'
        × (meant K L law h' o' ≡ meant K L law h (some o))
  deep_copy_object-meant h o old =
      let c = deep_copy_object-Copied K L law h o old in
      (returned_lem K L law h o, c.kept, c.copied (deep_copy_object K L o h).1 (λ a lo hi. refl))

  -- The store of one cell.
  abbrev pub write : ℕ → Cell K → Heap K → Heap K
  write a c h = record h { cells = λ b. if b == a then c else h.cells b }

  written_elsewhere :
      (h : Heap K) (a : ℕ) (c : Cell K) (lo hi : ℕ)
      → (a < lo) ⊎ (hi ≤ a)
      → SameIn K lo hi h (write a c h)
  written_elsewhere h a c lo hi out b above below = ground arith

  -- Where the copies of apimachinery's own types are deep: after `DeepCopyObject` of an object
  -- whose pointers are to allocated cells, a write to a cell that was allocated before leaves what
  -- the copy stands for, and a write to any other cell leaves what the original stands for: the two
  -- share no slice and no string.
  pub deep_copy_object-write :
      (h : Heap K) (o : Object K) (a : ℕ) (c : Cell K)
      → IsAllocated K L law h o
      → let o' = (deep_copy_object K L o h).0 in
        let g = write a c (deep_copy_object K L o h).1 in
        ((a < h.next) × (meant K L law g o' ≡ meant K L law h (some o)))
        ⊎ ((h.next ≤ a) × (meant K L law g (some o) ≡ meant K L law h (some o)))
  deep_copy_object-write h o a c old =
      let o' = (deep_copy_object K L o h).0 in
      let h' = (deep_copy_object K L o h).1 in
      let d = deep_copy_object-Copied K L law h o old in
      elim (below_or_above a h.next) [
        | inl lt ↦
            inl (lt, d.copied (write a c h') (written_elsewhere h' a c h.next h'.next (inl lt)))
        | inr le ↦ inr (
          le,
          object_same K L law o h (write a c h') old
              (λ b lo hi. written_elsewhere h' a c 0 h.next (inr le) b lo hi ∙ d.kept b lo hi),
        )
      ]
