-- ===== src/DeepCopy/Slices.antt =====
-- The copy of a slice of structs, from the copy of its items.
use cillion.Base.{
  ℕ, ◌≤◌, ◌<◌, nat_eq, ◌≡◌, refl, ap, ◌∙◌, Option, none, some, List, [], ◌∷◌, All, map, arith,
}
use cillion.DeepCopy.Memory.{Kinds, Heap, Cell, alloc, SameIn}
use cillion.DeepCopy.Copies.{copy_all, copy_items}
use cillion.DeepCopy.Shape.{Shape, IsStable, Copied, IsDeep, pair, both}

module _ (K : Kinds) {A V : Type 0} (S : Shape K A V) where
  abbrev pub all : Shape K (List A) (List V)
  all = record { value = λ h xs. map (S.value h) xs; IsOld = λ h xs. All (S.IsOld h) xs }

  module _ (items_in : Cell K → List A) where
    abbrev slice_value : Heap K → Option ℕ → List V
    slice_value h none = []
    slice_value h (some a) = map (S.value h) (items_in (h.cells a))

    abbrev SliceOld : Heap K → Option ℕ → Type 0
    SliceOld h none = Unit
    SliceOld h (some a) = (a < h.next) × All (S.IsOld h) (items_in (h.cells a))

    abbrev pub slice : Shape K (Option ℕ) (List V)
    slice = record { value = slice_value; IsOld = SliceOld }

module _ (K : Kinds) {A V : Type 0} (S : Shape K A V) (stable : IsStable K S) where
  items_same :
      (xs : List A) (h g : Heap K)
      → All (S.IsOld h) xs
      → SameIn K 0 h.next h g
      → map (S.value g) xs ≡ map (S.value h) xs
  items_same [] h g old same = refl
  items_same (x ∷ xs) h g (o, os) same =
      λ i. stable.value_same x h g o same i ∷ items_same xs h g os same i

  items_kept :
      (xs : List A) (h g : Heap K)
      → All (S.IsOld h) xs
      → SameIn K 0 h.next h g
      → h.next ≤ g.next
      → All (S.IsOld g) xs
  items_kept [] h g old same le = tt
  items_kept (x ∷ xs) h g (o, os) same le =
      (stable.old_kept x h g o same le, items_kept xs h g os same le)

  all-IsStable : IsStable K (all K S)
  all-IsStable = record { value_same = items_same; old_kept = items_kept }

  module _ (items_in : Cell K → List A) where
    slice_same :
        (p : Option ℕ) (h g : Heap K)
        → SliceOld K S items_in h p
        → SameIn K 0 h.next h g
        → slice_value K S items_in g p ≡ slice_value K S items_in h p
    slice_same none h g old same = refl
    slice_same (some a) h g (below, old) same =
        ap (λ (c : Cell K). map (S.value g) (items_in c)) (same a (omega arith) below)
        ∙ items_same (items_in (h.cells a)) h g old same

    slice_kept :
        (p : Option ℕ) (h g : Heap K)
        → SliceOld K S items_in h p
        → SameIn K 0 h.next h g
        → h.next ≤ g.next
        → SliceOld K S items_in g p
    slice_kept none h g old same le = tt
    slice_kept (some a) h g (below, old) same le = (
      omega arith,
      rw (same a (omega arith) below) (items_kept (items_in (h.cells a)) h g old same le),
    )

    pub slice-IsStable : IsStable K (slice K S items_in)
    slice-IsStable = record { value_same = slice_same; old_kept = slice_kept }

  from_pair :
      (h h' : Heap K) (x y : A) (xs ys : List A)
      → Copied K (pair K S (all K S)) h (x, xs) (y, ys) h'
      → Copied K (all K S) h (x ∷ xs) (y ∷ ys) h'
  from_pair h h' x y xs ys c = record {
    grows = c.grows;
    kept = c.kept;
    copied = λ g same. ap (λ (p : V × List V). p.0 ∷ p.1) (c.copied g same);
  }

  module _ (f : A → Heap K → A × Heap K) (deep : IsDeep K S f) where
    copy_all-Copied :
        (xs : List A) (h : Heap K)
        → All (S.IsOld h) xs
        → Copied K (all K S) h xs (copy_all K f xs h).0 (copy_all K f xs h).1
    unfolding copy_all
    copy_all-Copied [] h old = record {
      grows = omega arith;
      kept = λ a lo hi. refl;
      copied = λ g same. refl;
    }
    copy_all-Copied (x ∷ xs) h (o, os) =
        let h1 = (f x h).1 in
        from_pair h (copy_all K f xs h1).1 x (f x h).0 xs (copy_all K f xs h1).0 (
          both K S (all K S) h h1 (copy_all K f xs h1).1 x (f x h).0 xs (copy_all K f xs h1).0
            all-IsStable os (deep h x o) (copy_all-Copied xs h1))

    -- A slice is copied into a new array, item by item.
    pub copy_items-IsDeep :
        (items_in : Cell K → List A) (items : List A → Cell K)
        → ((xs : List A) → items_in (items xs) ≡ xs)
        → IsDeep K (slice K S items_in) (copy_items K f items_in items)
    unfolding copy_items alloc
    copy_items-IsDeep items_in items inverse h none old = record {
      grows = omega arith;
      kept = λ a lo hi. refl;
      copied = λ g same. refl;
    }
    copy_items-IsDeep items_in items inverse h (some a) (below, old) =
        let xs = items_in (h.cells a) in
        let ys = (copy_all K f xs h).0 in
        let h1 = (copy_all K f xs h).1 in
        let h2 = (alloc K (items ys) h1).1 in
        let c = copy_all-Copied xs h old in
        let above : (b : ℕ) → b < h1.next → h2.cells b ≡ h1.cells b = λ b lt. ground arith in
        let written : h2.cells h1.next ≡ items ys = ground arith in
        record {
          grows = omega (arith, c.grows);
          kept = λ b lo hi. above b (omega (arith, c.grows)) ∙ c.kept b lo hi;
          copied = λ g same.
              ap (λ (x : Cell K). map (S.value g) (items_in x))
                (same h1.next c.grows (omega arith) ∙ written)
              ∙ ap (map (S.value g)) (inverse ys)
              ∙ c.copied g (λ b lo hi. same b lo (omega arith) ∙ above b hi);
        }
