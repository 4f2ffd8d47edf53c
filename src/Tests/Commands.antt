-- ===== src/Tests/Commands.antt =====
-- The helpers that run commands, on a host where a command fails if its second word is "apply" or
-- "delete", and which keeps the commands and the working directory.
use cillion.Base.{
  ℕ, String, ◌==◌, nat_eq, string_eq, ℕ_discrete, ◌≡◌, refl, Bool, true, ◌||◌, if◌then◌else◌, none,
  some, List, [], ◌∷◌, ◌++◌, length,
}
use cillion.Platform.{ok}
use cillion.Utils.Commands.{
  Host, Command, remove_all, test_e2e, get_project_dir, run_command, run_all, command,
  cert_manager_url, uninstall_cert_manager, install_cert_manager,
  load_image_to_kind_cluster_with_name,
}

record Ran : Type 0 where
  wd : List ℕ
  log : List Command

abbrev fails : List String → Bool
fails (binary ∷ verb ∷ args) = verb == "apply" || verb == "delete"
fails _ = true

abbrev host : Host
host = record {
  Error = Unit {0};
  State = Ran;
  getwd = λ s. ok s.wd;
  chdir = λ dir s. (none, record s { wd = dir });
  environ = λ s. "HOME=/root" ∷ [];
  lookup_env = λ name s. if name == "KIND" then some "/usr/bin/kind" else none;
  combined_output = λ cmd s.
      (([], if fails cmd.args then some tt else none), record s { log = s.log ++ cmd ∷ [] });
}

-- "/p/test/e2e/test/e2e"
abbrev start : Ran
start = record { wd = 47 ∷ 112 ∷ test_e2e ++ test_e2e; log = [] }

abbrev in_project : Command → Command
in_project cmd = record cmd { dir = 47 ∷ 112 ∷ []; env = "HOME=/root" ∷ "GO111MODULE=on" ∷ [] }

-- The second command is not run behind the failure of the first.
install_stops : install_cert_manager host start ≡ (
  some (record {
    command = "kubectl" ∷ "apply" ∷ "-f" ∷ cert_manager_url ∷ [];
    output = [];
    cause = tt;
  }),
  record {
    wd = 47 ∷ 112 ∷ [];
    log = in_project (command ("kubectl" ∷ "apply" ∷ "-f" ∷ cert_manager_url ∷ [])) ∷ [];
  },
)
unfolding install_cert_manager run_command get_project_dir remove_all ℕ_discrete string_eq
install_stops = refl

-- All three commands are run, though each fails.
uninstall_goes_on : length (uninstall_cert_manager host start).log ≡ 3
unfolding uninstall_cert_manager run_all run_command get_project_dir remove_all ℕ_discrete string_eq
uninstall_goes_on = refl

image_loaded :
    (load_image_to_kind_cluster_with_name host "controller:v1" start).1.log
    ≡ in_project (
        command
          ("/usr/bin/kind" ∷ "load" ∷ "docker-image" ∷ "controller:v1" ∷ "--name" ∷ "kind" ∷ []))
      ∷ []
unfolding load_image_to_kind_cluster_with_name run_command get_project_dir remove_all ℕ_discrete
    string_eq
image_loaded = refl
