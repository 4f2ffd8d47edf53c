-- ===== src/Tests/Starting.antt =====
-- The start-up code on a runtime that keeps a log, and its theorems there.
use cillion.Base.{
  String, ◌==◌, string_eq, ◌≡◌, refl, true, false, Option, none, some, List, [], ◌∷◌, ◌++◌, nat_eq,
  ℕ_discrete,
}
use cillion.Platform.{ok}
use cillion.Policy.Exec.{panicked}
use cillion.Policy.{World, reconcile}
use cillion.Policy.Outcomes.{IsActive}
use cillion.Startup.Flags.{
  Flags, default_flags, Argument, parsed, exits, parse_bool, set_bool, set_flag, parse_from, parse,
}
use cillion.Startup.CommandLine.{split_value, read_name, read_word, read_arguments, parse_words}
use cillion.Startup.Servers.{TlsConfig, configured, webhook_server_options, metrics_server_options}
use cillion.Startup.Servers.Http2.{http2_stays_off}
use cillion.Startup.Run.{
  Runtime, exited, Controller, scion_path_policy, scion_computed_path, scion_cluster_peer,
  policy_reconciler, run_manager, run_flags, main,
}
use cillion.Startup.Run.Order.{Runs, steps, main-Runs}
use cillion.Startup.Run.Client.{main_reconciler_panics}
use cillion.Tests.Cluster.{Failure, conflict, toy}
use cillion.Tests.Controller.{peer_named, request, world_of, finalized}

abbrev controller_name : Controller toy → String
controller_name (scion_path_policy r) = "scionpathpolicy"
controller_name (scion_computed_path s) = "scioncomputedpath"
controller_name (scion_cluster_peer s) = "scionclusterpeer"

abbrev noted : String → List String → Option Failure × List String
noted x log = (none, log ++ x ∷ [])

-- The ready check cannot be added.
abbrev runtime : Runtime toy
runtime = record {
  State = List String;
  Config = Unit {0};
  Manager = Unit {0};
  add_client_go = λ log. (none, log);
  add_api = λ log. (none, log);
  other_flag = λ (name, value). name == "zap-devel";
  other_bool = λ name. name == "zap-devel";
  get_config = λ log. ok tt;
  new_manager = λ config options log. (ok tt, log);
  get_scheme = λ mgr. tt;
  setup_with_manager = λ c mgr. noted (controller_name c);
  add_healthz_check = λ mgr. noted;
  add_readyz_check = λ mgr name log. (some conflict, log);
  start = λ mgr. noted "start";
}

abbrev arguments : List Argument
arguments =
    ("leader-elect", none)
    ∷ ("metrics-bind-address", some ":8443")
    ∷ ("zap-devel", some "false")
    ∷ ("metrics-secure", some "0")
    ∷ []

abbrev given_flags : Flags
given_flags = record default_flags {
  enable_leader_election = true;
  metrics_addr = ":8443";
  secure_metrics = false;
}

parse_run : parse runtime.other_flag arguments ≡ parsed given_flags
unfolding parse parse_from set_flag set_bool parse_bool string_eq
parse_run = refl

abbrev command_line : List String
command_line =
    "--leader-elect" ∷ "-metrics-bind-address" ∷ ":8443" ∷ "--zap-devel=false" ∷ "-metrics-secure=0"
    ∷ "--" ∷ "-x" ∷ []

parse_command_line :
    parse_words runtime.other_flag runtime.other_bool command_line ≡ parsed given_flags
unfolding parse_words read_arguments read_word read_name split_value parse parse_from set_flag
    set_bool parse_bool string_eq ℕ_discrete
parse_command_line = refl

parse_unknown : parse runtime.other_flag (("metrics-port", some "1") ∷ []) ≡ exits 2
unfolding parse parse_from set_flag set_bool parse_bool string_eq
parse_unknown = refl

parse_bad_bool : parse runtime.other_flag (("leader-elect", some "yes") ∷ arguments) ≡ exits 2
unfolding parse parse_from set_flag set_bool parse_bool string_eq
parse_bad_bool = refl

main_run :
    main toy runtime command_line []
    ≡ (exited 1, "scionpathpolicy" ∷ "scioncomputedpath" ∷ "scionclusterpeer" ∷ "healthz" ∷ [])
unfolding main run_flags run_manager parse_words read_arguments read_word read_name split_value
    ℕ_discrete parse parse_from set_flag set_bool parse_bool string_eq
main_run = refl

main-Runs_example :
    Runs toy runtime
      (steps toy runtime tt)
      []
      (main toy runtime command_line []).0
      (main toy runtime command_line []).1
main-Runs_example =
    main-Runs toy runtime command_line given_flags tt tt [] [] [] [] refl refl parse_command_line
      refl refl

abbrev tls : TlsConfig
tls = record { next_protos = "h2" ∷ [] }

http2_stays_off_example :
    ((configured (webhook_server_options given_flags).tls_opts tls).next_protos ≡ "http/1.1" ∷ [])
    × ((configured (metrics_server_options given_flags).tls_opts tls).next_protos ≡ "http/1.1" ∷ [])
unfolding string_eq
http2_stays_off_example =
    http2_stays_off runtime.other_flag arguments given_flags tls parse_run
      (refl, (refl, (refl, (refl, tt))))

abbrev start : World toy
start = world_of finalized (peer_named "near" ∷ [])

started-IsActive : IsActive toy (policy_reconciler toy runtime tt) request start finalized
unfolding string_eq
started-IsActive = record { found = refl; kept = refl; finalized = refl }

main_reconciler_panics_example :
    reconcile toy (policy_reconciler toy runtime tt) request start ≡ (panicked, start)
main_reconciler_panics_example =
    main_reconciler_panics toy runtime tt request start finalized (peer_named "near") []
      started-IsActive refl

-- "--" ends the flags, a word without a dash too, and "-=" is none.
words_end :
    (read_arguments (λ name. false) ("--" ∷ "-=" ∷ []) ≡ ([], true))
    × (read_arguments (λ name. false) ("-a" ∷ "b" ∷ "c" ∷ "-d" ∷ []) ≡ (("a", some "b") ∷ [], true))
    × (read_arguments (λ name. false) ("-=" ∷ []) ≡ ([], false))
unfolding read_arguments read_word read_name split_value ℕ_discrete
words_end = (refl, refl, refl)
