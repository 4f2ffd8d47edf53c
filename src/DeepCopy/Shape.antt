-- ===== src/DeepCopy/Shape.antt =====
-- What a deep copy promises, and how the copies of two parts make the copy of both.
use cillion.Base.{ℕ, ◌≤◌, ◌<◌, nat_eq, ◌≡◌, refl, ap, ◌∙◌, Option, none, some, arith}
use cillion.DeepCopy.Memory.{Kinds, Heap, Cell, alloc, SameIn}

module _ (K : Kinds) where
  -- What a value stands for in a memory, and that all its pointers are to allocated cells.
  pub record Shape (A V : Type 0) : Type 1 where
    pub value : Heap K → A → V
    pub IsOld : Heap K → A → Type 0

  module _ {A V : Type 0} (S : Shape A V) where
    -- What allocated cells hold decides the value, and what is allocated stays so.
    pub record IsStable : Type 0 where
      pub value_same :
          (x : A) (h g : Heap K) → S.IsOld h x → SameIn K 0 h.next h g → S.value g x ≡ S.value h x
      pub old_kept :
          (x : A) (h g : Heap K)
          → S.IsOld h x
          → SameIn K 0 h.next h g
          → h.next ≤ g.next
          → S.IsOld g x

    -- The cells that were allocated are left alone, and the copy stands for the same as long as the
    -- newly allocated cells are left alone: it shares none with anything that was there before.
    pub record Copied (h : Heap K) (x : A) (y : A) (h' : Heap K) : Type 0 where
      pub grows : h.next ≤ h'.next
      pub kept : SameIn K 0 h.next h h'
      pub copied : (g : Heap K) → SameIn K h.next h'.next h' g → S.value g y ≡ S.value h x

    abbrev pub IsDeep : (A → Heap K → A × Heap K) → Type 0
    IsDeep f = (h : Heap K) (x : A) → S.IsOld h x → Copied h x (f x h).0 (f x h).1

  abbrev pub pair : {A V B W : Type 0} → Shape A V → Shape B W → Shape (A × B) (V × W)
  pair S T = record {
    value = λ h (x, z). (S.value h x, T.value h z);
    IsOld = λ h (x, z). S.IsOld h x × T.IsOld h z;
  }

  pub both :
      {A V B W : Type 0} (S : Shape A V) (T : Shape B W) (h h1 h2 : Heap K) (x y : A) (z w : B)
      → IsStable T
      → T.IsOld h z
      → Copied S h x y h1
      → (T.IsOld h1 z → Copied T h1 z w h2)
      → Copied (pair S T) h (x, z) (y, w) h2
  both S T h h1 h2 x y z w stable old c d' =
      let d = d' (stable.old_kept z h h1 old c.kept c.grows) in
      record {
        grows = omega (arith, c.grows, d.grows);
        kept = λ a lo hi. d.kept a lo (omega (arith, c.grows)) ∙ c.kept a lo hi;
        copied = λ g same.
            let first =
              c.copied g
                (λ a lo hi. same a lo (omega (arith, d.grows)) ∙ d.kept a (omega arith) hi) in
            let second =
              d.copied g (λ a lo hi. same a (omega (arith, c.grows)) hi)
              ∙ stable.value_same z h h1 old c.kept in
            λ i. (first i, second i);
      }

  -- A struct, by its parts with pointers.
  module _ {A V B W : Type 0} (S : Shape A V) (parts : B → A) (made : B → V → W) where
    abbrev pub via : Shape B W
    via = record { value = λ h b. made b (S.value h (parts b)); IsOld = λ h b. S.IsOld h (parts b) }

    pub via-IsStable : IsStable S → IsStable via
    via-IsStable s = record {
      value_same = λ b h g old same. ap (made b) (s.value_same (parts b) h g old same);
      old_kept = λ b h g old same le. s.old_kept (parts b) h g old same le;
    }

    pub via-Copied :
        (h h' : Heap K) (x y : B)
        → ((v : V) → made y v ≡ made x v)
        → Copied S h (parts x) (parts y) h'
        → Copied via h x y h'
    via-Copied h h' x y e c = record {
      grows = c.grows;
      kept = c.kept;
      copied = λ g same. e (S.value g (parts y)) ∙ ap (made x) (c.copied g same);
    }

  -- A part without pointers.
  abbrev pub plain : {A : Type 0} → Shape A A
  plain = record { value = λ h x. x; IsOld = λ h x. Unit {0} }

  pub plain-IsStable : {A : Type 0} → IsStable (plain {A = A})
  plain-IsStable = record {
    value_same = λ x h g old same. refl;
    old_kept = λ x h g old same le. tt;
  }

  pub plain-Copied : {A : Type 0} (h : Heap K) (x : A) → Copied plain h x x h
  plain-Copied h x = record { grows = omega arith; kept = λ a lo hi. refl; copied = λ g same. refl }

  pub pair-IsStable :
      {A V B W : Type 0} (S : Shape A V) (T : Shape B W)
      → IsStable S
      → IsStable T
      → IsStable (pair S T)
  pair-IsStable S T s t = record {
    value_same = λ (x, z) h g (old, old') same.
        λ i. (s.value_same x h g old same i, t.value_same z h g old' same i);
    old_kept = λ (x, z) h g (old, old') same le.
        (s.old_kept x h g old same le, t.old_kept z h g old' same le);
  }

  -- One cell behind a pointer that may be nil.
  module _ {V : Type 0} (in_cell : Cell K → V) (nil : V) where
    abbrev pub read : Heap K → Option ℕ → V
    read h none = nil
    read h (some a) = in_cell (h.cells a)

    abbrev pub IsAllocated : Heap K → Option ℕ → Type 0
    IsAllocated h none = Unit
    IsAllocated h (some a) = a < h.next

    abbrev pub leaf : Shape (Option ℕ) V
    leaf = record { value = read; IsOld = IsAllocated }

    pub leaf-IsStable : IsStable leaf
    leaf-IsStable = record { value_same = same_value; old_kept = kept }
      where
        same_value :
            (x : Option ℕ) (h g : Heap K)
            → IsAllocated h x
            → SameIn K 0 h.next h g
            → read g x ≡ read h x
        same_value none h g old same = refl
        same_value (some a) h g old same = ap in_cell (same a (omega arith) old)

        kept :
            (x : Option ℕ) (h g : Heap K)
            → IsAllocated h x
            → SameIn K 0 h.next h g
            → h.next ≤ g.next
            → IsAllocated g x
        kept none h g old same le = tt
        kept (some a) h g old same le = omega arith

    pub leaf-nil : (h : Heap K) → Copied leaf h none none h
    leaf-nil h = record { grows = omega arith; kept = λ a lo hi. refl; copied = λ g same. refl }

    pub leaf-alloc :
        (h : Heap K) (a : ℕ) (c : Cell K)
        → in_cell c ≡ in_cell (h.cells a)
        → Copied leaf h (some a) (some (alloc K c h).0) (alloc K c h).1
    unfolding alloc
    leaf-alloc h a c e = record {
      grows = omega arith;
      kept = λ b lo hi. ground arith;
      copied = λ g same. ap in_cell (same h.next (omega arith) (omega arith) ∙ written) ∙ e;
    }
      where
        written : (alloc K c h).1.cells h.next ≡ c
        written = ground arith
