-- ===== src/Utils/Lines/Join.antt =====
-- Lines that were joined are found again.
use cillion.Base.{ℕ, nat_eq, contains, ◌≡◌, refl, ap, ◌∙◌, false, List, [], ◌∷◌, ◌++◌, All, arith}
use cillion.Utils.Lines.{newline, split, non_empty, get_non_empty_lines}

-- `strings.Join(lines, "\n")`
abbrev pub join : List (List ℕ) → List ℕ
join [] = []
join (l ∷ []) = l
join (l ∷ m ∷ ls) = l ++ newline ∷ join (m ∷ ls)

abbrev pub IsLine : List ℕ → Type 0
IsLine l = contains l newline ≡ false

split_line : (l : List ℕ) → IsLine l → split l ≡ l ∷ []
unfolding split
split_line [] h = refl
split_line (b ∷ bs) h = ground (arith, split_line bs)

split-append : (l rest : List ℕ) → IsLine l → split (l ++ newline ∷ rest) ≡ l ∷ split rest
unfolding split
split-append [] rest h = ground arith
split-append (b ∷ bs) rest h = ground (arith, split-append bs rest)

-- The pieces of joined lines are the lines.
pub split-join :
    (l : List ℕ) (ls : List (List ℕ)) → All IsLine (l ∷ ls) → split (join (l ∷ ls)) ≡ l ∷ ls
split-join l [] (h, _) = split_line l h
split-join l (m ∷ ls) (h, hs) =
    split-append l (join (m ∷ ls)) h ∙ ap (λ (x : List (List ℕ)). l ∷ x) (split-join m ls hs)

-- `GetNonEmptyLines` of joined lines keeps those that are not empty, in their order.
get_non_empty_lines-join :
    (ls : List (List ℕ)) → All IsLine ls → get_non_empty_lines (join ls) ≡ non_empty ls
unfolding get_non_empty_lines split
get_non_empty_lines-join [] h = refl
get_non_empty_lines-join (l ∷ ls) h = ap non_empty (split-join l ls h)
