-- ===== src/Controllers/Interleaving.antt =====
-- The controllers side by side, in any order of their work.
use cillion.Base.{◌≡◌, refl, ap, sym, ◌∙◌, List, [], ◌∷◌, ◌++◌, map}
use cillion.Api.{NamespacedName}
use cillion.Platform.{Platform}
use cillion.Policy.{ScionPathPolicyReconciler, World, reconcile}
use cillion.Watches.{Event, Handlers}
use cillion.Watches.Peers.{work}
use cillion.Controllers.{
  ScionClusterPeerReconciler, ScionComputedPathReconciler, computed_path_source, Task, path_policy,
  cluster_peer, computed_path, policy_controller, peer_controller, path_controller, tasks, perform,
  run,
}

-- The requests among the tasks that the policy controller takes.
abbrev pub policy_requests : List Task → List NamespacedName
policy_requests [] = []
policy_requests (path_policy req ∷ ts) = req ∷ policy_requests ts
policy_requests (cluster_peer req ∷ ts) = policy_requests ts
policy_requests (computed_path req ∷ ts) = policy_requests ts

no_policy_requests : (reqs : List NamespacedName) → policy_requests (map computed_path reqs) ≡ []
no_policy_requests [] = refl
no_policy_requests (req ∷ reqs) = no_policy_requests reqs

left_out :
    (ts xs us : List Task)
    → policy_requests xs ≡ []
    → policy_requests (ts ++ xs ++ us) ≡ policy_requests (ts ++ us)
left_out [] xs us h = skipped xs h
  where
    skipped :
        (xs : List Task) → policy_requests xs ≡ [] → policy_requests (xs ++ us) ≡ policy_requests us
    skipped [] h = refl
    skipped (path_policy req ∷ xs) h = cc
    skipped (cluster_peer req ∷ xs) h = skipped xs h
    skipped (computed_path req ∷ xs) h = skipped xs h
left_out (path_policy req ∷ ts) xs us h =
    ap (λ (reqs : List NamespacedName). req ∷ reqs) (left_out ts xs us h)
left_out (cluster_peer req ∷ ts) xs us h = left_out ts xs us h
left_out (computed_path req ∷ ts) xs us h = left_out ts xs us h

event_requests :
    (P : Platform) (h : Handlers P) (c : P.Cluster) (e : Event P)
    → policy_requests (tasks P h c computed_path_source e) ≡ []
unfolding policy_controller peer_controller path_controller
event_requests P h c e = no_policy_requests (h.request_for_object e)

module _ (P : Platform) (policy : ScionPathPolicyReconciler P) (peer : ScionClusterPeerReconciler P)
    (path : ScionComputedPathReconciler P) where
  run-policy_requests :
      (ts : List Task) (w : World P)
      → (run P policy peer path ts w).1 ≡ (work P policy (policy_requests ts) w).1
  unfolding run perform
  run-policy_requests [] w = refl
  run-policy_requests (path_policy req ∷ ts) w = run-policy_requests ts (reconcile P policy req w).1
  run-policy_requests (cluster_peer req ∷ ts) w = run-policy_requests ts w
  run-policy_requests (computed_path req ∷ ts) w = run-policy_requests ts w

  -- However the three controllers take turns at the requests in their queues, the cluster and the
  -- SCION daemon end as the policy controller's requests alone leave them, in the order in which it
  -- takes them. The requests that an event on a ScionComputedPath leads to change nothing, wherever
  -- they stand among the others.
  run-computed_path :
      (h : Handlers P) (e : Event P) (ts ts' : List Task) (w : World P)
      → ((run P policy peer path (ts ++ ts') w).1
          ≡ (work P policy (policy_requests (ts ++ ts')) w).1)
        × ((run P policy peer path (ts ++ tasks P h w.cluster computed_path_source e ++ ts') w).1
            ≡ (run P policy peer path (ts ++ ts') w).1)
  run-computed_path h e ts ts' w = (
    run-policy_requests (ts ++ ts') w,
    run-policy_requests (ts ++ tasks P h w.cluster computed_path_source e ++ ts') w
        ∙ ap (λ (reqs : List NamespacedName). (work P policy reqs w).1)
            (left_out ts (tasks P h w.cluster computed_path_source e) ts'
              (event_requests P h w.cluster e))
        ∙ sym (run-policy_requests (ts ++ ts') w),
  )
