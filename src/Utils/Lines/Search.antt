-- ===== src/Utils/Lines/Search.antt =====
-- Searching the lines of a text is searching the text.
use cillion.Base.{ℕ, nat_eq, ◌≡◌, refl, ◌∙◌, false, ◌||◌, List, [], ◌∷◌, arith}
use cillion.Utils.Lines.{
  is_empty, split, non_empty, get_non_empty_lines, has_prefix, index, contains_text, any_contains,
}
use cillion.Utils.Lines.Join.{IsLine}

-- What has the target as a prefix or further on.
contains_text-cons :
    (b : ℕ) (bs target : List ℕ)
    → contains_text (b ∷ bs) target ≡ (has_prefix target (b ∷ bs) || contains_text bs target)
unfolding index
contains_text-cons b bs target = ground arith

abbrev first : List (List ℕ) → List ℕ
first [] = []
first (l ∷ ls) = l

abbrev rest : List (List ℕ) → List (List ℕ)
rest [] = []
rest (l ∷ ls) = ls

has_prefix-first :
    (target s : List ℕ) → IsLine target → has_prefix target (first (split s)) ≡ has_prefix target s
unfolding split
has_prefix-first [] s h = refl
has_prefix-first (t ∷ ts) [] h = refl
has_prefix-first (t ∷ ts) (b ∷ bs) h = ground (arith, has_prefix-first ts bs)

split-cons : (s : List ℕ) → split s ≡ first (split s) ∷ rest (split s)
unfolding split
split-cons [] = refl
split-cons (b ∷ bs) = ground (arith, split-cons bs)

any_contains-split :
    (s target : List ℕ)
    → IsLine target
    → is_empty target ≡ false
    → any_contains (split s) target ≡ contains_text s target
unfolding split index
any_contains-split [] target h full = ground arith
any_contains-split (b ∷ bs) target h full = ground (
  arith,
  split-cons bs,
  any_contains-split bs target h full,
  contains_text-cons b bs target,
  contains_text-cons b (first (split bs)) target,
  has_prefix-first target (b ∷ bs) h,
)

any_contains-non_empty :
    (ls : List (List ℕ)) (target : List ℕ)
    → is_empty target ≡ false
    → any_contains (non_empty ls) target ≡ any_contains ls target
unfolding index
any_contains-non_empty [] target full = refl
any_contains-non_empty (l ∷ ls) target full = ground (arith, any_contains-non_empty ls target full)

pub any_contains-lines :
    (text target : List ℕ)
    → IsLine target
    → is_empty target ≡ false
    → any_contains (get_non_empty_lines text) target ≡ contains_text text target
unfolding get_non_empty_lines
any_contains-lines text target h full =
    any_contains-non_empty (split text) target full ∙ any_contains-split text target h full
