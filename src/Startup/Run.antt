-- ===== src/Startup/Run.antt =====
-- cmd/main.go: `init` and `main`, from the words of the command line. The process ends by an exit code, or by a
-- panic before it has read its flags.
pub mod Order
pub mod Client
use cillion.Base.{ℕ, String, Bool, Option, none, some, List}
use cillion.Platform.{Platform, Result, ok, err}
use cillion.Policy.{ScionPathPolicyReconciler}
use cillion.Startup.Flags.{Flags, Argument, parsed, exits}
use cillion.Startup.CommandLine.{parse_words}
use cillion.Startup.Servers.{
  WebhookOptions, MetricsOptions, webhook_server_options, metrics_server_options,
}

-- The fields of `ctrl.Options` that the program sets; the scheme is the package's one.
pub record ManagerOptions : Type 0 where
  pub metrics : MetricsOptions
  pub webhook_server : WebhookOptions
  pub health_probe_bind_address : String
  pub leader_election : Bool
  pub leader_election_id : String

module _ (P : Platform) where
  -- The three controllers. The last two have nothing but the manager's client and scheme.
  pub data Controller : Type 0 where
    scion_path_policy : ScionPathPolicyReconciler P → Controller
    scion_computed_path scion_cluster_peer : P.Scheme → Controller

  -- controller-runtime, and the process that runs it.
  pub record Runtime : Type 1 where
    pub State : Type 0
    pub Config : Type 0
    pub Manager : Type 0
    -- `AddToScheme` of client-go and of the API group.
    pub add_client_go : State → Option P.Error × State
    pub add_api : State → Option P.Error × State
    -- The flags that zap and controller-runtime define: whether they take an argument, and which
    -- of them are Boolean.
    pub other_flag : Argument → Bool
    pub other_bool : String → Bool
    pub get_config : State → Result P.Error Config
    pub new_manager : Config → ManagerOptions → State → Result P.Error Manager × State
    pub get_scheme : Manager → P.Scheme
    pub setup_with_manager : Controller → Manager → State → Option P.Error × State
    pub add_healthz_check : Manager → String → State → Option P.Error × State
    pub add_readyz_check : Manager → String → State → Option P.Error × State
    -- It returns when the process is told to stop.
    pub start : Manager → State → Option P.Error × State

  pub data Exit : Type 0 where
    exited : ℕ → Exit
    panics : Exit

  abbrev pub manager_options : Flags → ManagerOptions
  manager_options flags = record {
    metrics = metrics_server_options flags;
    webhook_server = webhook_server_options flags;
    health_probe_bind_address = flags.probe_addr;
    leader_election = flags.enable_leader_election;
    leader_election_id = "db0040d6.cilion.io";
  }

  module _ (T : Runtime) where
    -- `ScionClient` is not set.
    abbrev pub policy_reconciler : T.Manager → ScionPathPolicyReconciler P
    policy_reconciler mgr = record { scheme = T.get_scheme mgr; scion_client = none }

    -- `if err := …; err != nil { setupLog.Error(…); os.Exit(1) }`
    abbrev pub or_exit : Option P.Error × T.State → (T.State → Exit × T.State) → Exit × T.State
    or_exit (none, s) k = k s
    or_exit (some e, s) k = (exited 1, s)

    abbrev pub or_panic : Option P.Error × T.State → (T.State → Exit × T.State) → Exit × T.State
    or_panic (none, s) k = k s
    or_panic (some e, s) k = (panics, s)

    -- From the first controller on.
    unfoldable pub run_manager : T.Manager → T.State → Exit × T.State
    run_manager mgr s =
        or_exit (T.setup_with_manager (scion_path_policy (policy_reconciler mgr)) mgr s) λ s.
          or_exit (T.setup_with_manager (scion_computed_path (T.get_scheme mgr)) mgr s) λ s.
            or_exit (T.setup_with_manager (scion_cluster_peer (T.get_scheme mgr)) mgr s) λ s.
              or_exit (T.add_healthz_check mgr "healthz" s) λ s.
                or_exit (T.add_readyz_check mgr "readyz" s)
                  λ s. or_exit (T.start mgr s) λ s. (exited 0, s)

    abbrev pub with_manager : Result P.Error T.Manager × T.State → Exit × T.State
    with_manager (err e, s) = (exited 1, s)
    with_manager (ok mgr, s) = run_manager mgr s

    -- `ctrl.GetConfigOrDie` exits with code 1 as well.
    unfoldable pub run_flags : Flags → T.State → Exit × T.State
    unfolding run_manager
    run_flags flags s = elim (T.get_config s) [
      | err e ↦ (exited 1, s)
      | ok config ↦ with_manager (T.new_manager config (manager_options flags) s)
    ]

    -- `init` and `main`
    unfoldable pub main : List String → T.State → Exit × T.State
    unfolding run_flags
    main words s = or_panic (T.add_client_go s) λ s. or_panic (T.add_api s) λ s.
        elim (parse_words T.other_flag T.other_bool words) [
          | exits code ↦ (exited code, s)
          | parsed flags ↦ run_flags flags s
        ]
