-- ===== src/Utils/Uncomment.antt =====
-- test/utils/utils.go: `UncommentCode` on the files that the operating system keeps. Writing to a
-- `bytes.Buffer` does not fail.
pub mod Laws
use cillion.Base.{ℕ, ◌+◌, String, length, take, drop, Option, none, some, List, [], ◌∷◌, ◌++◌}
use cillion.Platform.{Result, ok, err}
use cillion.Utils.Lines.{newline, index, trim_prefix, scan_lines}

-- Package os.
pub record Files : Type 1 where
  pub Error : Type 0
  pub State : Type 0
  pub read_file : String → State → Result Error (List ℕ)
  pub write_file : String → List ℕ → State → Option Error × State

-- The buffer after the loop over the tokens.
abbrev pub uncommented : List ℕ → List (List ℕ) → List ℕ
uncommented prefix [] = []
uncommented prefix (l ∷ []) = trim_prefix l prefix
uncommented prefix (l ∷ m ∷ ls) = trim_prefix l prefix ++ newline ∷ uncommented prefix (m ∷ ls)

module _ (F : Files) where
  pub data UncommentError : Type 0 where
    read_failed : String → F.Error → UncommentError
    code_not_found : List ℕ → UncommentError
    write_failed : String → F.Error → UncommentError

  unfoldable pub write_back : String → List ℕ → F.State → Option UncommentError × F.State
  write_back filename out s =
      let (failure, s') = F.write_file filename out s in
      elim failure [ none ↦ (none, s') | some e ↦ (some (write_failed filename e), s') ]

  -- From the scanner on: if it has no token, the function returns at once.
  unfoldable pub replace_at :
      String → List ℕ → List ℕ → List ℕ → ℕ → F.State → Option UncommentError × F.State
  unfolding write_back
  replace_at filename content target prefix idx s = elim (scan_lines target) [
    | [] ↦ (none, s)
    | l ∷ ls ↦
        write_back filename
          (take idx content ++ (uncommented prefix (l ∷ ls) ++ drop (idx + length target) content))
          s
  ]

  unfoldable pub uncomment_code :
      String → List ℕ → List ℕ → F.State → Option UncommentError × F.State
  unfolding replace_at
  uncomment_code filename target prefix s = elim (F.read_file filename s) [
    | err e ↦ (some (read_failed filename e), s)
    | ok content ↦ elim (index content target) [
      | none ↦ (some (code_not_found target), s)
      | some idx ↦ replace_at filename content target prefix idx s
    ]
  ]
