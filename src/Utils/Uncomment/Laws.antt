-- ===== src/Utils/Uncomment/Laws.antt =====
-- `UncommentCode` undoes commenting.
use cillion.Base.{
  ℕ, suc, ◌+◌, String, nat_eq, length, take, drop, ◌≡◌, ◌↔◌, refl, ap, ◌∙◌, true, false, none, some,
  List, [], ◌∷◌, ◌++◌, All, arith,
}
use cillion.Platform.{ok}
use cillion.Utils.Lines.{
  is_empty, fits, drop_cr, scan_pieces, scan_lines, has_prefix, without, trim_prefix, index,
}
use cillion.Utils.Lines.Join.{join, IsLine, split-join}
use cillion.Utils.Uncomment.{Files, uncommented, write_back, replace_at, uncomment_code}

has_prefix-append : (p s : List ℕ) → has_prefix p (p ++ s) ≡ true
has_prefix-append [] s = refl
has_prefix-append (b ∷ p) s = ground (arith, has_prefix-append p s)

without-append : (p s : List ℕ) → without p (p ++ s) ≡ s
without-append [] s = refl
without-append (b ∷ p) s = without-append p s

trim_prefix-append : (p s : List ℕ) → trim_prefix (p ++ s) p ≡ s
unfolding trim_prefix
trim_prefix-append p s = rw (has_prefix-append p s, without-append p s)

take-append : (xs ys : List ℕ) → take (length xs) (xs ++ ys) ≡ xs
take-append [] ys = refl
take-append (x ∷ xs) ys = ap (λ (r : List ℕ). x ∷ r) (take-append xs ys)

drop-append : (ys zs : List ℕ) → drop (length ys) (ys ++ zs) ≡ zs
drop-append [] zs = refl
drop-append (y ∷ ys) zs = drop-append ys zs

drop-append_add : (xs ys : List ℕ) (k : ℕ) → drop (length xs + k) (xs ++ ys) ≡ drop k ys
drop-append_add [] ys k = let e : 0 + k ≡ k = omega arith in ap (λ (n : ℕ). drop n ys) e
drop-append_add (x ∷ xs) ys k =
    let e : suc (length xs) + k ≡ suc (length xs + k) = omega arith in
    ap (λ (n : ℕ). drop n (x ∷ (xs ++ ys))) e ∙ drop-append_add xs ys k

-- A line that a scanner yields as it is: it holds no newline, fits into the buffer, does not end
-- with a carriage return and is not empty.
pub record IsPlain (l : List ℕ) : Type 0 where
  pub one_line : IsLine l
  pub in_buffer : fits l ≡ true
  pub no_cr : drop_cr l ≡ l
  pub non_empty : is_empty l ≡ false

IsLine-All : (ls : List (List ℕ)) → All IsPlain ls → All IsLine ls
IsLine-All [] h = tt
IsLine-All (l ∷ ls) (h, hs) = (h.one_line, IsLine-All ls hs)

scan_pieces-plain : (ls : List (List ℕ)) → All IsPlain ls → scan_pieces ls ≡ ls
unfolding scan_pieces
scan_pieces-plain [] h = refl
scan_pieces-plain (l ∷ []) (h, _) = rw (h.non_empty, h.in_buffer, h.no_cr)
scan_pieces-plain (l ∷ m ∷ ls) (h, hs) = rw (h.in_buffer, h.no_cr, scan_pieces-plain (m ∷ ls) hs)

scan_lines-join :
    (l : List ℕ) (ls : List (List ℕ)) → All IsPlain (l ∷ ls) → scan_lines (join (l ∷ ls)) ≡ l ∷ ls
unfolding scan_lines
scan_lines-join l ls h = rw (split-join l ls (IsLine-All (l ∷ ls) h), scan_pieces-plain (l ∷ ls) h)

-- The lines behind a prefix.
abbrev pub commented : List ℕ → List (List ℕ) → List (List ℕ)
commented prefix [] = []
commented prefix (l ∷ ls) = (prefix ++ l) ∷ commented prefix ls

uncommented-commented :
    (prefix l : List ℕ) (ls : List (List ℕ))
    → uncommented prefix (commented prefix (l ∷ ls)) ≡ join (l ∷ ls)
uncommented-commented prefix l [] = trim_prefix-append prefix l
uncommented-commented prefix l (m ∷ ls) =
    rw (trim_prefix-append prefix l, uncommented-commented prefix m ls)

module _ (F : Files) where
  -- If a file holds lines behind a prefix, and the first place where it holds them is behind
  -- `before`, then `UncommentCode` of these lines writes the file with the prefix off each of them
  -- and all else as it was. It returns an error exactly if the file cannot be written.
  uncomment_code-commented :
      (filename : String) (prefix l before after : List ℕ) (ls : List (List ℕ)) (s : F.State)
      → All IsPlain (commented prefix (l ∷ ls))
      → let target = join (commented prefix (l ∷ ls)) in
        F.read_file filename s ≡ ok (before ++ (target ++ after))
        → index (before ++ (target ++ after)) target ≡ some (length before)
        → let written = F.write_file filename (before ++ (join (l ∷ ls) ++ after)) s in
          let done = uncomment_code F filename target prefix s in
          (done.1 ≡ written.1) × ((done.0 ≡ none) ↔ (written.0 ≡ none))
  unfolding uncomment_code replace_at write_back
  uncomment_code-commented filename prefix l before after ls s plain read found =
      let target = join (commented prefix (l ∷ ls)) in
      rw
        (
          uncomment_code,
          read,
          found,
          replace_at,
          scan_lines-join (prefix ++ l) (commented prefix ls) plain,
          take-append before (target ++ after),
          drop-append_add before (target ++ after) (length target),
          drop-append target after,
          uncommented-commented prefix l ls,
        )
        (ground arith, ground arith)
