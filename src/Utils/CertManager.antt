-- ===== src/Utils/CertManager.antt =====
-- test/utils/utils.go: `IsCertManagerCRDsInstalled`, from what `Run` returned on.
pub mod Laws
use cillion.Base.{ℕ, Bool, true, false, ◌||◌, List, [], ◌∷◌}
use cillion.Platform.{Result, ok, err}
use cillion.Utils.Lines.{get_non_empty_lines, any_contains}

-- The names in `certManagerCRDs`, as bytes.
-- "certificates.cert-manager.io"
abbrev pub certificates : List ℕ
certificates =
    99 ∷ 101 ∷ 114 ∷ 116 ∷ 105 ∷ 102 ∷ 105 ∷ 99 ∷ 97 ∷ 116 ∷ 101 ∷ 115 ∷ 46 ∷ 99 ∷ 101 ∷ 114 ∷ 116
    ∷ 45 ∷ 109 ∷ 97 ∷ 110 ∷ 97 ∷ 103 ∷ 101 ∷ 114 ∷ 46 ∷ 105 ∷ 111 ∷ []

-- "issuers.cert-manager.io"
abbrev pub issuers : List ℕ
issuers =
    105 ∷ 115 ∷ 115 ∷ 117 ∷ 101 ∷ 114 ∷ 115 ∷ 46 ∷ 99 ∷ 101 ∷ 114 ∷ 116 ∷ 45 ∷ 109 ∷ 97 ∷ 110 ∷ 97
    ∷ 103 ∷ 101 ∷ 114 ∷ 46 ∷ 105 ∷ 111 ∷ []

-- "clusterissuers.cert-manager.io"
abbrev pub clusterissuers : List ℕ
clusterissuers =
    99 ∷ 108 ∷ 117 ∷ 115 ∷ 116 ∷ 101 ∷ 114 ∷ 105 ∷ 115 ∷ 115 ∷ 117 ∷ 101 ∷ 114 ∷ 115 ∷ 46 ∷ 99 ∷ 101
    ∷ 114 ∷ 116 ∷ 45 ∷ 109 ∷ 97 ∷ 110 ∷ 97 ∷ 103 ∷ 101 ∷ 114 ∷ 46 ∷ 105 ∷ 111 ∷ []

-- "certificaterequests.cert-manager.io"
abbrev pub certificaterequests : List ℕ
certificaterequests =
    99 ∷ 101 ∷ 114 ∷ 116 ∷ 105 ∷ 102 ∷ 105 ∷ 99 ∷ 97 ∷ 116 ∷ 101 ∷ 114 ∷ 101 ∷ 113 ∷ 117 ∷ 101 ∷ 115
    ∷ 116 ∷ 115 ∷ 46 ∷ 99 ∷ 101 ∷ 114 ∷ 116 ∷ 45 ∷ 109 ∷ 97 ∷ 110 ∷ 97 ∷ 103 ∷ 101 ∷ 114 ∷ 46 ∷ 105
    ∷ 111 ∷ []

-- "orders.acme.cert-manager.io"
abbrev pub orders_acme : List ℕ
orders_acme =
    111 ∷ 114 ∷ 100 ∷ 101 ∷ 114 ∷ 115 ∷ 46 ∷ 97 ∷ 99 ∷ 109 ∷ 101 ∷ 46 ∷ 99 ∷ 101 ∷ 114 ∷ 116 ∷ 45
    ∷ 109 ∷ 97 ∷ 110 ∷ 97 ∷ 103 ∷ 101 ∷ 114 ∷ 46 ∷ 105 ∷ 111 ∷ []

-- "challenges.acme.cert-manager.io"
abbrev pub challenges_acme : List ℕ
challenges_acme =
    99 ∷ 104 ∷ 97 ∷ 108 ∷ 108 ∷ 101 ∷ 110 ∷ 103 ∷ 101 ∷ 115 ∷ 46 ∷ 97 ∷ 99 ∷ 109 ∷ 101 ∷ 46 ∷ 99
    ∷ 101 ∷ 114 ∷ 116 ∷ 45 ∷ 109 ∷ 97 ∷ 110 ∷ 97 ∷ 103 ∷ 101 ∷ 114 ∷ 46 ∷ 105 ∷ 111 ∷ []

abbrev pub cert_manager_crds : List (List ℕ)
cert_manager_crds =
    certificates ∷ issuers ∷ clusterissuers ∷ certificaterequests ∷ orders_acme ∷ challenges_acme
    ∷ []

-- The outer loop.
abbrev pub any_listed : List (List ℕ) → List (List ℕ) → Bool
any_listed lines [] = false
any_listed lines (crd ∷ crds) = any_contains lines crd || any_listed lines crds

unfoldable pub is_cert_manager_crds_installed : {E : Type 0} → Result E (List ℕ) → Bool
is_cert_manager_crds_installed (err e) = false
is_cert_manager_crds_installed (ok output) =
    any_listed (get_non_empty_lines output) cert_manager_crds
