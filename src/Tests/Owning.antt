-- ===== src/Tests/Owning.antt =====
-- Two policies on the small cluster whose computed paths share a name.
use cillion.Base.{
  String, ◌==◌, string_eq, if◌then◌else◌, ◌≡◌, ◌≢◌, refl, ap, ◌⊎◌, inl, inr, true, false, Option,
  none, some, List, [], ◌∷◌, arith, Bool-cases,
}
use cillion.Api.{
  NamespacedName, same_key, key_of, object_meta, ObjectMeta, OwnerReference, ScionComputedPath,
  ScionClusterPeer,
}
use cillion.Platform.{Platform, Result, ok, err, Fetched}
use cillion.Policy.Exec.{CtrlResult, returned}
use cillion.Policy.{
  ScionClient, ScionPathPolicyReconciler, World, reconcile, reconcile_policy, reconcile_paths,
  compute_paths, compute_path, fetch, finish, mutate, computed_path_name, cilion_finalizer,
}
use cillion.Policy.Loop.{answers, path_key}
use cillion.Policy.Outcomes.{IsActive}
use cillion.Policy.Ownership.{controller_of, controller_name, stored_or, Objects, KeepsOwners}
use cillion.Policy.Ownership.Calls.{AllOwned, reconcile-Owned, reconcile_fails_on_taken}
use cillion.Tests.Cluster.{
  Failure, conflict, Store, Policy, reference, replaced, set_controller, existing, stored_result,
  toy,
}
use cillion.Tests.Controller.{peer_named, policy_with, request, client, two_peers}

abbrev owning : Platform
owning = toy

abbrev objects : Objects owning
objects c k = c.paths k

existing-stored_or :
    (o : ScionComputedPath) (old : Option ScionComputedPath) → existing o old ≡ stored_or o old
existing-stored_or o none = refl
existing-stored_or o (some old) = refl

controller-replaced :
    (owner : ObjectMeta) (refs : List OwnerReference) (name : String)
    → controller_name refs ≡ some name
    → (controller_of (replaced (reference owner) refs) ≡ some owner.uid)
      × (controller_name (replaced (reference owner) refs) ≡ some owner.name)
controller-replaced owner [] name h = absurd (ground arith)
controller-replaced owner (o ∷ os) name h = elim (Bool-cases o.controller) [
  | inl controls ↦ (ground arith, ground arith)
  | inr other ↦
      let (id, owned) = controller-replaced owner os name (ground arith) in
      (ground arith, ground arith)
]

set_controller-owner :
    (owner m m' : ObjectMeta) (c : Option String)
    → controller_name m.owner_references ≡ c
    → set_controller owner m c ≡ ok m'
    → (controller_of m'.owner_references ≡ some owner.uid)
      × (controller_name m'.owner_references ≡ some owner.name)
set_controller-owner owner m m' none e h = (ground arith, ground arith)
set_controller-owner owner m m' (some name) e h =
    let (id, owned) = controller-replaced owner m.owner_references name e in
    (ground arith, ground arith)

set_controller-taken :
    (owner m : ObjectMeta) (name : String)
    → name ≢ owner.name
    → (e : Failure) × (set_controller owner m (some name) ≡ err e)
set_controller-taken owner m name other = (conflict, ground arith)

stored_any :
    (o : ScionComputedPath) (c : Store) (k : NamespacedName) (x : Result Failure ScionComputedPath)
    → ((stored_result o c x).1.paths k ≡ c.paths k)
      ⊎ ((new : ScionComputedPath) × (x ≡ ok new)
          × (same_key k (key_of o.meta) ≡ true)
          × ((stored_result o c x).1.paths k ≡ some new))
stored_any o c k (err e) = inl refl
stored_any o c k (ok new) = elim (Bool-cases (same_key k (key_of o.meta))) [
  | inl same ↦ inr (new, refl, same, ground arith)
  | inr other ↦ inl (ground arith)
]

stored_ok :
    (o : ScionComputedPath) (c c' : Store) (x : Result Failure ScionComputedPath)
    → stored_result o c x ≡ (none, c')
    → (new : ScionComputedPath) × (x ≡ ok new)
      × ((k : NamespacedName)
          → c'.paths k ≡ (if same_key k (key_of o.meta) then some new else c.paths k))
stored_ok o c c' (ok new) h = (new, refl, λ k. ground arith)
stored_ok o c c' (err e) h = absurd (ground arith)

owning-KeepsOwners : KeepsOwners owning objects
owning-KeepsOwners = record {
  set_controller-owner = λ s owner m m' h. set_controller-owner owner m m' _ refl h;
  set_controller-taken = λ s owner m name e other. rw e (set_controller-taken owner m name other);
  object-update = λ p c k. refl;
  object-update_status = λ p c k. refl;
  object-create_or_update = λ o f c k.
      rw (← existing-stored_or o (c.paths (key_of o.meta)))
        (stored_any o c k (f (existing o (c.paths (key_of o.meta)))));
  object-stored = λ o f c c' h.
      rw (← existing-stored_or o (c.paths (key_of o.meta)))
        (stored_ok o c c' (f (existing o (c.paths (key_of o.meta)))) h);
}

abbrev owned_policy : Policy
owned_policy = record (policy_with (cilion_finalizer ∷ []) none (some "low_latency")) {
  meta = record (policy_with (cilion_finalizer ∷ []) none (some "low_latency")).meta {
    uid = "8a1c";
  };
}

abbrev shared_name : NamespacedName
shared_name = record { name = "billing-to-x-to-near"; namespace = "default" }

-- The path of the policy "billing-to-x" to the peer "near".
abbrev path_of_other : ScionComputedPath
path_of_other = record {
  meta = record (object_meta "billing-to-x-to-near" "default") {
    owner_references =
        record { kind = "ScionPathPolicy"; name = "billing-to-x"; uid = "77f0"; controller = true }
        ∷ [];
  };
  spec = record {
    policy_ref = "billing-to-x";
    destination_cidr = "10.244.2.0/24";
    next_hop_ip = "198.51.100.42";
    hop_fields = 1 ∷ 2 ∷ [];
  };
  status = record { conditions = [] };
}

abbrev owning_world : List ScionClusterPeer → World owning
owning_world peers = record {
  cluster = record {
    policies = λ k. some owned_policy;
    paths = λ k. if same_key k shared_name then some path_of_other else none;
    peers = peers;
    listed = [];
  };
  daemon = 0;
}

abbrev owning_client : ScionClient owning
owning_client = client

abbrev owning_reconciler : ScionPathPolicyReconciler owning
owning_reconciler = record { scheme = tt; scion_client = some owning_client }

owned_policy-IsActive :
    (peers : List ScionClusterPeer)
    → IsActive owning owning_reconciler request (owning_world peers) owned_policy
unfolding string_eq
owned_policy-IsActive peers = record { found = refl; kept = refl; finalized = refl }

abbrev shared_peers : List ScionClusterPeer
shared_peers = peer_named "east" ∷ peer_named "x-to-near" ∷ []

abbrev answer : Fetched Failure
answer = record {
  is_ready = true;
  raw_hop_fields = 1 ∷ 2 ∷ [];
  next_hop_ip = "198.51.100.42";
  failure = none;
}

names_differ : ◌≢◌ {A = String} "billing-to-x" "billing"
unfolding string_eq
names_differ e = let h : true ≡ false = ap (λ (s : String). s == "billing-to-x") e in cc

reconcile_fails_on_taken_example :
    ((res : CtrlResult) (w' : World owning)
      → reconcile owning owning_reconciler request (owning_world shared_peers)
        ≢ (returned res none, w'))
    × (objects
          (reconcile owning owning_reconciler request (owning_world shared_peers)).1.cluster
          (path_key owning owned_policy (peer_named "x-to-near"))
        ≡ some path_of_other)
unfolding client string_eq computed_path_name
reconcile_fails_on_taken_example =
    reconcile_fails_on_taken owning objects owning-KeepsOwners owning_reconciler owned_policy
      owning_client "low_latency" refl refl request (owning_world shared_peers) shared_peers
      (owned_policy-IsActive shared_peers) refl ((peer_named "east", answer) ∷ []) []
      (peer_named "x-to-near") answer path_of_other "billing-to-x" refl refl refl refl names_differ

two_peers-run : reconcile owning owning_reconciler request (owning_world two_peers) ≡ (
  returned (record { requeue_after = 0 }) none,
  (reconcile owning owning_reconciler request (owning_world two_peers)).1,
)
unfolding reconcile reconcile_policy reconcile_paths compute_paths compute_path fetch finish mutate
    computed_path_name client string_eq
two_peers-run = refl

reconcile-Owned_example :
    AllOwned owning objects owning-KeepsOwners owning_reconciler owned_policy owning_client
      "low_latency" refl refl
      (answers owning owning_client "low_latency" two_peers 0).0
      (reconcile owning owning_reconciler request (owning_world two_peers)).1.cluster
reconcile-Owned_example =
    reconcile-Owned owning objects owning-KeepsOwners owning_reconciler owned_policy owning_client
      "low_latency" refl refl request (owning_world two_peers) two_peers
      (owned_policy-IsActive two_peers) refl (record { requeue_after = 0 })
      (reconcile owning owning_reconciler request (owning_world two_peers)).1 two_peers-run
