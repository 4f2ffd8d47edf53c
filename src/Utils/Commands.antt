-- ===== src/Utils/Commands.antt =====
-- test/utils/utils.go: the helpers that run commands. What they print for the test's log is left
-- out. Words of a command line are texts, file names and outputs are bytes.
use cillion.Base.{
  ℕ, zero, suc, ◌-◌, ◌==◌, nat_eq, if◌then◌else◌, String, Bool, true, false, ◌&&◌, Option, none,
  some, List, [], ◌∷◌, ◌++◌, length,
}
use cillion.Platform.{Result, ok, err}
use cillion.Utils.CertManager.{is_cert_manager_crds_installed}

-- `exec.Cmd`
pub record Command : Type 0 where
  pub args : List String
  pub dir : List ℕ
  pub env : List String

-- Packages os and os/exec.
pub record Host : Type 1 where
  pub Error : Type 0
  pub State : Type 0
  pub getwd : State → Result Error (List ℕ)
  pub chdir : List ℕ → State → Option Error × State
  pub environ : State → List String
  pub lookup_env : String → State → Option String
  -- The output, also of a command that fails.
  pub combined_output : Command → State → (List ℕ × Option Error) × State

-- What `fmt.Errorf` is called with in `Run`.
pub record RunError (E : Type 0) : Type 0 where
  pub command : List String
  pub output : List ℕ
  pub cause : E

abbrev begins : List ℕ → List ℕ → Bool
begins [] s = true
begins (c ∷ cs) [] = false
begins (c ∷ cs) (b ∷ bs) = c == b && begins cs bs

-- `strings.ReplaceAll(s, old, "")`, where so many bytes of an occurrence are still to be left out.
unfoldable pub remove_all : List ℕ → ℕ → List ℕ → List ℕ
remove_all old skip [] = []
remove_all old (suc skip) (b ∷ bs) = remove_all old skip bs
remove_all old zero (b ∷ bs) =
    let behind = remove_all old (length old - 1) bs in
    let rest = remove_all old zero bs in if begins old (b ∷ bs) then behind else b ∷ rest

-- "/test/e2e"
abbrev pub test_e2e : List ℕ
test_e2e = 47 ∷ 116 ∷ 101 ∷ 115 ∷ 116 ∷ 47 ∷ 101 ∷ 50 ∷ 101 ∷ []

abbrev pub cert_manager_url : String
cert_manager_url =
    "https://github.com/cert-manager/cert-manager/releases/download/v1.20.2/cert-manager.yaml"

-- `exec.Command`
abbrev pub command : List String → Command
command args = record { args = args; dir = []; env = [] }

module _ (H : Host) where
  -- `GetProjectDir`; `Run` reads the directory only, which is empty if there is an error.
  unfoldable pub get_project_dir : H.State → Result H.Error (List ℕ)
  unfolding remove_all
  get_project_dir s = elim (H.getwd s) [ err e ↦ err e | ok wd ↦ ok (remove_all test_e2e zero wd) ]

  abbrev project_dir : Result H.Error (List ℕ) → List ℕ
  project_dir (ok dir) = dir
  project_dir (err e) = []

  -- The error of `Chdir` is printed and dropped.
  unfoldable pub run_command : Command → H.State → Result (RunError H.Error) (List ℕ) × H.State
  unfolding get_project_dir
  run_command cmd s =
      let dir = project_dir (get_project_dir s) in
      let (_, s1) = H.chdir dir s in
      let ran = record cmd { dir = dir; env = H.environ s1 ++ "GO111MODULE=on" ∷ [] } in
      let ((output, failure), s2) = H.combined_output ran s1 in
      elim failure [
        | none ↦ (ok output, s2)
        | some e ↦ (err (record { command = cmd.args; output = output; cause = e }), s2)
      ]

  -- Errors are printed as warnings.
  unfoldable pub run_all : List Command → H.State → H.State
  unfolding run_command
  run_all [] s = s
  run_all (cmd ∷ cmds) s = run_all cmds (run_command cmd s).1

  abbrev pub delete_lease : String → Command
  delete_lease lease = command (
      "kubectl" ∷ "delete" ∷ "lease" ∷ lease ∷ "-n" ∷ "kube-system" ∷ "--ignore-not-found"
      ∷ "--force" ∷ "--grace-period=0" ∷ [])

  unfoldable pub uninstall_cert_manager : H.State → H.State
  unfolding run_all
  uninstall_cert_manager s =
      run_all
        (command ("kubectl" ∷ "delete" ∷ "-f" ∷ cert_manager_url ∷ [])
          ∷ delete_lease "cert-manager-cainjector-leader-election"
          ∷ delete_lease "cert-manager-controller"
          ∷ [])
        s

  abbrev error_of : {A : Type 0} → Result (RunError H.Error) A → Option (RunError H.Error)
  error_of (ok a) = none
  error_of (err e) = some e

  abbrev pub wait_for_webhook : Command
  wait_for_webhook = command (
      "kubectl" ∷ "wait" ∷ "deployment.apps/cert-manager-webhook" ∷ "--for" ∷ "condition=Available"
      ∷ "--namespace" ∷ "cert-manager" ∷ "--timeout" ∷ "5m" ∷ [])

  unfoldable pub install_cert_manager : H.State → Option (RunError H.Error) × H.State
  unfolding run_command
  install_cert_manager s =
      let (r, s1) = run_command (command ("kubectl" ∷ "apply" ∷ "-f" ∷ cert_manager_url ∷ [])) s in
      let (r', s2) = run_command wait_for_webhook s1 in
      elim (error_of r) [ some e ↦ (some e, s1) | none ↦ (error_of r', s2) ]

  unfoldable pub cert_manager_crds_installed : H.State → Bool × H.State
  unfolding run_command
  cert_manager_crds_installed s =
      let (r, s') = run_command (command ("kubectl" ∷ "get" ∷ "crds" ∷ [])) s in
      (is_cert_manager_crds_installed r, s')

  abbrev or_default : Option String → String
  or_default (some v) = v
  or_default none = "kind"

  unfoldable pub load_image_to_kind_cluster_with_name :
      String → H.State → Option (RunError H.Error) × H.State
  unfolding run_command
  load_image_to_kind_cluster_with_name name s =
      let cluster = or_default (H.lookup_env "KIND_CLUSTER" s) in
      let kind_binary = or_default (H.lookup_env "KIND" s) in
      let (r, s') =
        run_command
          (command (kind_binary ∷ "load" ∷ "docker-image" ∷ name ∷ "--name" ∷ cluster ∷ [])) s in
      (error_of r, s')
