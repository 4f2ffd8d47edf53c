-- ===== src/Utils/Lines.antt =====
-- test/utils/utils.go: `GetNonEmptyLines`, and what it and `UncommentCode` use of the packages
-- strings and bufio.
pub mod Join
pub mod Search
use cillion.Base.{
  ℕ, suc, ◌==◌, nat_eq, length, if◌then◌else◌, Bool, true, false, not, ◌&&◌, ◌||◌, Option, none,
  some, List, [], ◌∷◌,
}
use native.Mathlib.Decide.{dec_lt}
use mathlib.Core.Logic.{ite}

abbrev pub newline : ℕ
newline = 10

abbrev pub is_empty : List ℕ → Bool
is_empty [] = true
is_empty (b ∷ bs) = false

abbrev pub onto_first : ℕ → List (List ℕ) → List (List ℕ)
onto_first b [] = (b ∷ []) ∷ []
onto_first b (l ∷ ls) = (b ∷ l) ∷ ls

-- `strings.SplitSeq(s, "\n")`; there is always one element more than newlines.
unfoldable pub split : List ℕ → List (List ℕ)
split [] = [] ∷ []
split (b ∷ bs) = let rest = split bs in if b == newline then [] ∷ rest else onto_first b rest

-- The loop of `GetNonEmptyLines`.
abbrev pub non_empty : List (List ℕ) → List (List ℕ)
non_empty [] = []
non_empty (l ∷ ls) = if not (is_empty l) then l ∷ non_empty ls else non_empty ls

unfoldable pub get_non_empty_lines : List ℕ → List (List ℕ)
unfolding split
get_non_empty_lines output = non_empty (split output)

-- `strings.TrimPrefix`, and the test of it.
abbrev pub has_prefix : List ℕ → List ℕ → Bool
has_prefix [] s = true
has_prefix (p ∷ ps) [] = false
has_prefix (p ∷ ps) (b ∷ bs) = p == b && has_prefix ps bs

abbrev pub without : List ℕ → List ℕ → List ℕ
without [] s = s
without (p ∷ ps) [] = []
without (p ∷ ps) (b ∷ bs) = without ps bs

unfoldable pub trim_prefix : List ℕ → List ℕ → List ℕ
trim_prefix s prefix = if has_prefix prefix s then without prefix s else s

abbrev pub one_more : Option ℕ → Option ℕ
one_more none = none
one_more (some i) = some (suc i)

-- `strings.Index`; a negative index is `none`.
unfoldable pub index : List ℕ → List ℕ → Option ℕ
index [] target = if has_prefix target [] then some 0 else none
index (b ∷ bs) target =
    let rest = index bs target in if has_prefix target (b ∷ bs) then some 0 else one_more rest

-- `bufio.MaxScanTokenSize`
abbrev pub max_scan_token_size : ℕ
max_scan_token_size = 65_536

abbrev pub fits : List ℕ → Bool
fits l = ite (dec_lt (length l) max_scan_token_size) true false

-- A carriage return at the end of a line is dropped.
abbrev pub drop_cr : List ℕ → List ℕ
drop_cr [] = []
drop_cr (b ∷ []) = if b == 13 then [] else b ∷ []
drop_cr (b ∷ c ∷ bs) = b ∷ drop_cr (c ∷ bs)

-- The tokens of a `bufio.Scanner` on the pieces between newlines. It ends before an empty last
-- piece, and for good before a piece that its buffer cannot hold.
unfoldable pub scan_pieces : List (List ℕ) → List (List ℕ)
scan_pieces [] = []
scan_pieces (l ∷ []) = if not (is_empty l) && fits l then drop_cr l ∷ [] else []
scan_pieces (l ∷ m ∷ ls) =
    let rest = scan_pieces (m ∷ ls) in if fits l then drop_cr l ∷ rest else []

unfoldable pub scan_lines : List ℕ → List (List ℕ)
unfolding split scan_pieces
scan_lines text = scan_pieces (split text)

-- `strings.Contains`
abbrev pub contains_text : List ℕ → List ℕ → Bool
contains_text s target = elim (index s target) [ none ↦ false | some i ↦ true ]

-- The inner loop of `IsCertManagerCRDsInstalled`.
abbrev pub any_contains : List (List ℕ) → List ℕ → Bool
any_contains [] target = false
any_contains (l ∷ ls) target = contains_text l target || any_contains ls target
