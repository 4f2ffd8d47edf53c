-- ===== src/Tests/Texts.antt =====
-- The text helpers on a file system of one file, and their theorems there.
use cillion.Base.{ℕ, nat_eq, ℕ_discrete, ◌≡◌, refl, true, none, List, [], ◌∷◌, ◌++◌, All}
use native.Mathlib.Decide.{dec_lt}
use cillion.Platform.{Result, ok}
use cillion.Utils.Lines.{split, get_non_empty_lines, index, scan_pieces, scan_lines, trim_prefix}
use cillion.Utils.Lines.Join.{join}
use cillion.Utils.CertManager.{issuers, is_cert_manager_crds_installed}
use cillion.Utils.Uncomment.{Files, write_back, replace_at, uncomment_code}
use cillion.Utils.Uncomment.Laws.{IsPlain, commented}

abbrev one_file : Files
one_file = record {
  Error = Unit {0};
  State = List ℕ;
  read_file = λ name s. ok s;
  write_file = λ name out s. (none, out);
}

lines_run : get_non_empty_lines (97 ∷ 98 ∷ 10 ∷ 10 ∷ 99 ∷ 10 ∷ []) ≡ (97 ∷ 98 ∷ []) ∷ (99 ∷ []) ∷ []
unfolding get_non_empty_lines split ℕ_discrete
lines_run = refl

-- "#"
abbrev hash : List ℕ
hash = 35 ∷ []

abbrev two_lines : List (List ℕ)
two_lines = (97 ∷ []) ∷ (98 ∷ []) ∷ []

abbrev target : List ℕ
target = join (commented hash two_lines)

-- "k", a newline, the commented lines, a newline and "z"
abbrev file : List ℕ
file = (107 ∷ 10 ∷ []) ++ (target ++ (10 ∷ 122 ∷ []))

uncomment_run :
    uncomment_code one_file "kustomization.yaml" target hash file
    ≡ (none, 107 ∷ 10 ∷ 97 ∷ 10 ∷ 98 ∷ 10 ∷ 122 ∷ [])
unfolding uncomment_code replace_at write_back scan_lines scan_pieces split index trim_prefix
    ℕ_discrete dec_lt
uncomment_run = refl

-- A newline at the end of the target is lost.
uncomment_trailing_newline :
    uncomment_code one_file "kustomization.yaml" (target ++ 10 ∷ []) hash file
    ≡ (none, 107 ∷ 10 ∷ 97 ∷ 10 ∷ 98 ∷ 122 ∷ [])
unfolding uncomment_code replace_at write_back scan_lines scan_pieces split index trim_prefix
    ℕ_discrete dec_lt
uncomment_trailing_newline = refl

two_lines-IsPlain : All IsPlain (commented hash two_lines)
unfolding ℕ_discrete dec_lt
two_lines-IsPlain = (
  record { one_line = refl; in_buffer = refl; no_cr = refl; non_empty = refl },
  (record { one_line = refl; in_buffer = refl; no_cr = refl; non_empty = refl }, tt),
)

-- "x", a newline and "issuers.cert-manager.io  now"
abbrev crds_output : List ℕ
crds_output = 120 ∷ 10 ∷ (issuers ++ 32 ∷ 32 ∷ 110 ∷ 111 ∷ 119 ∷ [])

abbrev kubectl_result : Result (Unit {0}) (List ℕ)
kubectl_result = ok crds_output

crds_run : is_cert_manager_crds_installed kubectl_result ≡ true
unfolding is_cert_manager_crds_installed get_non_empty_lines split index ℕ_discrete
crds_run = refl
