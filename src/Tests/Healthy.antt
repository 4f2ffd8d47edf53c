-- ===== src/Tests/Healthy.antt =====
-- Calls on the small cluster whose writes are taken: the theorems on calls that succeed.
use cillion.Base.{
  ◌+◌, ◌==◌, string_eq, nat_eq, ℕ_discrete, ◌≡◌, refl, sym, subst, inl, inr, Bool-cases, true, not,
  none, some, [], arith,
}
use cillion.Api.{NamespacedName, same_key, key_of}
use cillion.Policy.{
  ScionClient, ScionPathPolicyReconciler, World, done, reconcile, reconcile_policy, reconcile_paths,
  compute_paths, compute_path, fetch, finish, mutate, computed_path_name, cilion_finalizer,
}
use cillion.Policy.Loop.{answers, latest}
use cillion.Policy.Success.{CallTaken}
use cillion.Policy.Convergence.{KeepsPolicies, reconcile_converges}
use cillion.Policy.Retries.{LeavesPolicies, after, Retries, LastCall, retries_settle}
use cillion.Platform.{Result, ok}
use cillion.Tests.Cluster.{Failure, Store, Policy, toy, toy_view, toy-IsLawful}
use cillion.Tests.Controller.{
  policy_with, request, client, reconciler, world_of, finalized, two_peers,
}

same_key_self : (k : NamespacedName) → same_key k k ≡ true
same_key_self k = ground arith

toy-KeepsPolicies : KeepsPolicies toy
toy-KeepsPolicies = record {
  get-update = λ old p c c' stored meta spec h live.
      (p, ground (arith, same_key_self (key_of p.meta)), refl, refl);
  peers-update = λ p c. refl;
}

for_read :
    (r : ScionPathPolicyReconciler toy) (c : ScionClient toy) (w : World toy) (p q : Policy)
    → CallTaken toy r p c "low_latency" two_peers w
    → ◌≡◌ {A = Result Failure Policy} (ok p) (ok q)
    → CallTaken toy r q c "low_latency" two_peers w
for_read r c w p q taken h =
    let same : p ≡ q = cc in
    subst (λ (x : Policy). CallTaken toy r x c "low_latency" two_peers w) same taken

abbrev new_policy : Policy
new_policy = policy_with [] none (some "low_latency")

abbrev new_world : World toy
new_world = world_of new_policy two_peers

abbrev updated_world : World toy
updated_world = record {
  cluster =
      (toy.update_policy
        (record new_policy { meta = toy.add_finalizer new_policy.meta cilion_finalizer })
        new_world.cluster).1;
  daemon = 0;
}

reconcile_converges_example :
    (w1 w2 : World toy) × (reconcile toy reconciler request new_world ≡ (done, w1))
    × (reconcile toy reconciler request w1 ≡ (done, w2))
    × ((k : NamespacedName)
        → toy_view.path_at w2.cluster k
          ≡ latest toy new_policy k (answers toy client "low_latency" two_peers 0).0 none)
unfolding client string_eq mutate computed_path_name
reconcile_converges_example =
    reconcile_converges toy toy_view toy-IsLawful toy-KeepsPolicies reconciler client refl request
      new_world new_policy refl refl refl refl "low_latency" two_peers refl refl (refl, (refl, tt))
      (λ p found.
        for_read reconciler client updated_world _ p
          (record { paths = ((λ h. refl), ((λ h. refl), tt)); status = λ h. refl }) found)

key-eq : (k j : NamespacedName) → same_key k j ≡ true → k ≡ j
key-eq k j h = ground arith

-- Under the key of the update, the policy has its new status.
status_updated :
    (p old : Policy) (c : Store)
    → toy.get_policy (key_of p.meta) c ≡ ok old
    → (new : Policy) × (toy.get_policy (key_of p.meta) (toy.update_policy_status p c).1 ≡ ok new)
      × (new.meta ≡ old.meta)
      × (new.spec ≡ old.spec)
status_updated p old c found =
    (record old { status = p.status }, ground (arith, same_key_self (key_of p.meta)), refl, refl)

get-update_status :
    (p old : Policy) (c : Store) (k : NamespacedName)
    → toy.get_policy k c ≡ ok old
    → (new : Policy) × (toy.get_policy k (toy.update_policy_status p c).1 ≡ ok new)
      × (new.meta ≡ old.meta)
      × (new.spec ≡ old.spec)
get-update_status p old c k found = elim (Bool-cases (same_key k (key_of p.meta))) [
  | inl same ↦
      subst
        (λ (j : NamespacedName).
          toy.get_policy j c ≡ ok old
          → (new : Policy) × (toy.get_policy j (toy.update_policy_status p c).1 ≡ ok new)
            × (new.meta ≡ old.meta)
            × (new.spec ≡ old.spec))
        (sym (key-eq k (key_of p.meta) same)) (status_updated p old c) found
  | inr other ↦ (old, ground arith, refl, refl)
]

toy-LeavesPolicies : LeavesPolicies toy
toy-LeavesPolicies = record {
  get-update_status = get-update_status;
  peers-update_status = λ p c. refl;
  get-create_or_update = λ o f c k. ground arith;
  peers-create_or_update = λ o f c. ground arith;
}

-- It is not ready when it is asked for the first time.
abbrev healing : ScionClient toy
healing remote_as preference d = (
  record {
    is_ready = not (d == 0);
    raw_hop_fields = [];
    next_hop_ip = "198.51.100.42";
    failure = none;
  },
  d + 1,
)

abbrev retrying : ScionPathPolicyReconciler toy
retrying = record { scheme = tt; scion_client = some healing }

retries_settle_example :
    (w' : World toy) × Retries toy retrying request (world_of finalized two_peers) w'
    × LastCall toy toy-LeavesPolicies retrying request two_peers healing "low_latency" refl
        finalized w'
unfolding reconcile reconcile_policy reconcile_paths compute_paths compute_path fetch finish mutate
    computed_path_name string_eq ℕ_discrete
retries_settle_example =
    retries_settle toy toy-LeavesPolicies retrying request two_peers healing "low_latency" refl 1
      finalized (world_of finalized two_peers) refl
      (record { found = refl; kept = refl; finalized = refl }) refl
      (record {
        answered = (refl, (refl, tt));
        ready = refl;
        taken = λ p found.
            for_read retrying healing (after toy retrying request 1 (world_of finalized two_peers))
              _ p (record { paths = ((λ h. refl), ((λ h. refl), tt)); status = λ h. refl }) found;
      })
