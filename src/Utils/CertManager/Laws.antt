-- ===== src/Utils/CertManager/Laws.antt =====
-- What the search for the names finds.
use cillion.Base.{◌≡◌, refl, Bool, false, ◌||◌, List, [], ◌∷◌, ℕ, ℕ_discrete, All}
use cillion.Platform.{Result, ok, err}
use cillion.Utils.Lines.{is_empty, get_non_empty_lines, contains_text}
use cillion.Utils.Lines.Join.{IsLine}
use cillion.Utils.Lines.Search.{any_contains-lines}
use cillion.Utils.CertManager.{cert_manager_crds, any_listed, is_cert_manager_crds_installed}

-- The text holds one of the names.
abbrev pub any_in : List ℕ → List (List ℕ) → Bool
any_in text [] = false
any_in text (crd ∷ crds) = contains_text text crd || any_in text crds

-- A name that holds no newline and is not empty.
abbrev pub IsName : List ℕ → Type 0
IsName crd = IsLine crd × (is_empty crd ≡ false)

any_listed-lines :
    (text : List ℕ) (crds : List (List ℕ))
    → All IsName crds
    → any_listed (get_non_empty_lines text) crds ≡ any_in text crds
any_listed-lines text [] h = refl
any_listed-lines text (crd ∷ crds) ((line, full), hs) =
    rw (any_contains-lines text crd line full, any_listed-lines text crds hs)

names-IsName : All IsName cert_manager_crds
unfolding ℕ_discrete
names-IsName = (
  (refl, refl),
  ((refl, refl), ((refl, refl), ((refl, refl), ((refl, refl), ((refl, refl), tt))))),
)

-- The CRDs count as installed exactly if the command succeeded and its output, read as one text,
-- holds one of the six names: no name is lost or made by the split into lines.
is_cert_manager_crds_installed_lem :
    (E : Type 0) (r : Result E (List ℕ))
    → ((e : E) → r ≡ err e → is_cert_manager_crds_installed r ≡ false)
      × ((output : List ℕ)
          → r ≡ ok output
          → is_cert_manager_crds_installed r ≡ any_in output cert_manager_crds)
unfolding is_cert_manager_crds_installed
is_cert_manager_crds_installed_lem E r =
    (λ e h. rw h refl, λ output h. rw h (any_listed-lines output cert_manager_crds names-IsName))
