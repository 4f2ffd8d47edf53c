-- ===== src/Policy/Finalizer.antt =====
-- The calls of `Reconcile` that only move the finalizer: the first one for a policy, and those for
-- a policy that is being deleted.
use cillion.Base.{
  String, ◌==◌, string_eq, contains, ◌≡◌, true, false, not, ◌&&◌, ◌||◌, none, some, List, arith,
}
use cillion.Api.{NamespacedName, key_of}
use cillion.Platform.{Platform, View, IsLawful, ok, stored_or_gone}
use cillion.Policy.Exec.{CtrlResult, returned}
use cillion.Policy.{
  ScionPathPolicyReconciler, World, PathPolicy, cilion_finalizer, done, add_finalizer,
  reconcile_deleted, reconcile_policy, reconcile,
}

module _ (P : Platform) (v : View P) (L : IsLawful P v) (r : ScionPathPolicyReconciler P)
    (req : NamespacedName) (w : World P) (policy : PathPolicy P)
    (found : P.get_policy req w.cluster ≡ ok policy) where
  -- The SCION service has not been asked, and every computed path is as it was.
  abbrev pub LeavesPaths : World P → Type 0
  LeavesPaths w' =
      (w'.daemon ≡ w.daemon)
      × ((k : NamespacedName) → v.path_at w'.cluster k ≡ v.path_at w.cluster k)

  abbrev pub with_finalizer : PathPolicy P
  with_finalizer = record policy { meta = P.add_finalizer policy.meta cilion_finalizer }

  abbrev without_finalizer : PathPolicy P
  without_finalizer = record policy { meta = P.remove_finalizer policy.meta cilion_finalizer }

  pub key-with_finalizer : key_of with_finalizer.meta ≡ req
  key-with_finalizer =
      rw (L.add_finalizer_rest policy.meta cilion_finalizer) (L.get-key req w.cluster policy found)

  key-without_finalizer : key_of without_finalizer.meta ≡ req
  key-without_finalizer =
      rw (L.remove_finalizer_rest policy.meta cilion_finalizer)
        (L.get-key req w.cluster policy found)

  stored_with :
      (c' : P.Cluster)
      → P.is_zero policy.meta.deletion_timestamp ≡ true
      → P.update_policy with_finalizer w.cluster ≡ (none, c')
      → v.finalizers_at c' req ≡ some with_finalizer.meta.finalizers
  stored_with c' kept h = ground (
    arith,
    L.finalizers-update with_finalizer w.cluster c',
    key-with_finalizer,
    L.add_finalizer_rest policy.meta cilion_finalizer,
  )

  stored_without :
      (c' : P.Cluster)
      → P.is_zero policy.meta.deletion_timestamp ≡ false
      → P.update_policy without_finalizer w.cluster ≡ (none, c')
      → v.finalizers_at c' req ≡ stored_or_gone without_finalizer.meta.finalizers
  stored_without c' gone h = ground (
    arith,
    L.finalizers-update without_finalizer w.cluster c',
    key-without_finalizer,
    L.remove_finalizer_rest policy.meta cilion_finalizer,
  )

  -- The first call for a policy, however it ends, asks for no path and stores none. If it returns
  -- no error, then the finalizer is stored beside those that were there, and it asks for no
  -- requeue.
  pub reconcile_new :
      P.is_zero policy.meta.deletion_timestamp ≡ true
      → P.contains_finalizer policy.meta cilion_finalizer ≡ false
      → LeavesPaths (reconcile P r req w).1
        × ((res : CtrlResult) (w' : World P)
            → reconcile P r req w ≡ (returned res none, w')
            → (fs : List String) × (v.finalizers_at w'.cluster req ≡ some fs)
              × ((g : String)
                  → contains fs g ≡ (g == cilion_finalizer || contains policy.meta.finalizers g))
              × (res.requeue_after ≡ 0))
  unfolding reconcile reconcile_policy add_finalizer
  reconcile_new kept lacks = (
    (ground arith, λ k. ground (arith, L.path-update with_finalizer w.cluster k)),
    λ res w' h. (
      with_finalizer.meta.finalizers,
      stored_with w'.cluster kept (ground arith),
      λ g. L.contains-add_finalizer policy.meta cilion_finalizer g,
      ground arith,
    ),
  )

  -- A call for a policy that is being deleted, however it ends, asks for no path and stores none.
  -- Without the finalizer it changes nothing at all. With it, a call that returns no error has
  -- removed it and kept every other finalizer; the policy is gone if there was no other.
  pub reconcile_deleting :
      P.is_zero policy.meta.deletion_timestamp ≡ false
      → LeavesPaths (reconcile P r req w).1
        × (P.contains_finalizer policy.meta cilion_finalizer ≡ false
            → reconcile P r req w ≡ (done, w))
        × ((res : CtrlResult) (w' : World P)
            → P.contains_finalizer policy.meta cilion_finalizer ≡ true
            → reconcile P r req w ≡ (returned res none, w')
            → (fs : List String) × (v.finalizers_at w'.cluster req ≡ stored_or_gone fs)
              × ((g : String)
                  → contains fs g
                    ≡ (not (g == cilion_finalizer) && contains policy.meta.finalizers g)))
  unfolding reconcile reconcile_policy reconcile_deleted
  reconcile_deleting gone = (
    (ground arith, λ k. ground (arith, L.path-update without_finalizer w.cluster k)),
    λ lacks. ground arith,
    λ res w' has h. (
      without_finalizer.meta.finalizers,
      stored_without w'.cluster gone (ground arith),
      λ g. L.contains-remove_finalizer policy.meta cilion_finalizer g,
    ),
  )
