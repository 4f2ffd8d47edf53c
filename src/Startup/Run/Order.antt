-- ===== src/Startup/Run/Order.antt =====
-- The order of the start-up steps, and where the process ends.
use cillion.Base.{String, ◌≡◌, refl, Option, none, some, List, [], ◌∷◌}
use cillion.Platform.{Platform, ok}
use cillion.Startup.Flags.{Flags, parsed}
use cillion.Startup.CommandLine.{parse_words}
use cillion.Startup.Run.{
  Runtime, Exit, exited, scion_path_policy, scion_computed_path, scion_cluster_peer,
  policy_reconciler, manager_options, or_exit, run_manager, run_flags, main,
}

module _ (P : Platform) (T : Runtime P) where
  abbrev pub Step : Type 0
  Step = T.State → Option P.Error × T.State

  -- A run of steps: the first that fails ends the process with code 1, and none behind it is taken.
  pub data Runs : List Step → T.State → Exit P → T.State → Type 0 where
    all_taken : {s : T.State} → Runs [] s (exited 0) s
    fails :
        {step : Step} {steps : List Step} {s s' : T.State} (e : P.Error)
        → step s ≡ (some e, s')
        → Runs (step ∷ steps) s (exited 1) s'
    goes_on :
        {step : Step} {steps : List Step} {s s' t : T.State} {x : Exit P}
        → step s ≡ (none, s')
        → Runs steps s' x t
        → Runs (step ∷ steps) s x t

  -- The controllers come before the checks, and the manager starts last.
  abbrev pub steps : T.Manager → List Step
  steps mgr =
      T.setup_with_manager (scion_path_policy (policy_reconciler P T mgr)) mgr
      ∷ T.setup_with_manager (scion_computed_path (T.get_scheme mgr)) mgr
      ∷ T.setup_with_manager (scion_cluster_peer (T.get_scheme mgr)) mgr
      ∷ T.add_healthz_check mgr "healthz"
      ∷ T.add_readyz_check mgr "readyz"
      ∷ T.start mgr
      ∷ []

  or_exit-Runs :
      (step : Step) (rest : List Step) (k : T.State → Exit P × T.State) (s : T.State)
      → ((u : T.State) → Runs rest u (k u).0 (k u).1)
      → Runs (step ∷ rest) s (or_exit P T (step s) k).0 (or_exit P T (step s) k).1
  or_exit-Runs step rest k s later = by_result (step s) refl
    where
      by_result :
          (r : Option P.Error × T.State)
          → step s ≡ r
          → Runs (step ∷ rest) s (or_exit P T r k).0 (or_exit P T r k).1
      by_result (none, u) e = goes_on e (later u)
      by_result (some x, u) e = fails x e

  run_manager-Runs :
      (mgr : T.Manager) (s : T.State)
      → Runs (steps mgr) s (run_manager P T mgr s).0 (run_manager P T mgr s).1
  unfolding run_manager
  run_manager-Runs mgr s = or_exit-Runs _ _ _ s λ s. or_exit-Runs _ _ _ s λ s.
      or_exit-Runs _ _ _ s
        λ s. or_exit-Runs _ _ _ s λ s. or_exit-Runs _ _ _ s λ s. or_exit-Runs _ _ _ s λ s. all_taken

  -- Once the schemes are registered, the command line is accepted and the manager has been made of
  -- its flags, `main` takes the steps in the order of the list up to the first that fails. It ends
  -- with code 1 at that step, and with code 0 behind the last, in the state that they lead to.
  pub main-Runs :
      (words : List String) (flags : Flags) (config : T.Config) (mgr : T.Manager)
      (s s1 s2 u : T.State)
      → T.add_client_go s ≡ (none, s1)
      → T.add_api s1 ≡ (none, s2)
      → parse_words T.other_flag T.other_bool words ≡ parsed flags
      → T.get_config s2 ≡ ok config
      → T.new_manager config (manager_options P flags) s2 ≡ (ok mgr, u)
      → Runs (steps mgr) u (main P T words s).0 (main P T words s).1
  unfolding main run_flags
  main-Runs words flags config mgr s s1 s2 u a b c d e =
      rw (a, b, c, run_flags, d, e) (run_manager-Runs mgr u)
