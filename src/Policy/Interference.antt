-- ===== src/Policy/Interference.antt =====
-- internal/controller/scionpathpolicy_controller.go: `Reconcile` while others write to the API
-- server between its calls.
use cillion.Base.{
  ℕ, ◌+◌, String, string_eq, ◌≡◌, ap, ◌∙◌, if◌then◌else◌, true, Option, none, some, List,
}
use cillion.Api.{NamespacedName, key_of, ScionClusterPeer, same_key}
use cillion.Platform.{Platform, View, IsLawful, ok}
use cillion.Policy.Exec.{CtrlResult, returned}
use cillion.Policy.Success.{CallTaken, AllAnswered, reconcile_succeeds}
use cillion.Policy.{
  ScionClient, ScionPathPolicyReconciler, World, PathPolicy, cilion_finalizer, reconcile,
}
use cillion.Policy.Loop.{answers, all_ready, latest}
use cillion.Policy.Outcomes.{IsActive, Settled, reconcile_refines}

module _ (P : Platform) where
  -- What others do to the server before a `Get`, between it and the `List`, and before a write. The
  -- number counts the writes so far.
  pub record Others : Type 0 where
    pub before_get : ℕ → P.Cluster → P.Cluster
    pub before_list : ℕ → P.Cluster → P.Cluster
    pub before_write : ℕ → P.Cluster → P.Cluster

  module _ (o : Others) where
    abbrev at_get : P.Cluster × ℕ → P.Cluster
    at_get c = o.before_get c.1 c.0

    abbrev at_list : P.Cluster × ℕ → P.Cluster
    at_list c = o.before_list c.1 (at_get c)

    abbrev at_write : P.Cluster × ℕ → P.Cluster
    at_write c = o.before_write c.1 (at_list c)

    abbrev counted : P.Cluster × ℕ → Option P.Error × P.Cluster → Option P.Error × (P.Cluster × ℕ)
    counted c x = (x.0, (x.1, c.1 + 1))

    -- The same calls on a server that others write to.
    abbrev pub interfered : Platform
    interfered = record {
      Error = P.Error;
      Cluster = P.Cluster × ℕ;
      Daemon = P.Daemon;
      Scheme = P.Scheme;
      LabelSelector = P.LabelSelector;
      Selector = P.Selector;
      ignore_not_found = P.ignore_not_found;
      get_policy = λ k c. P.get_policy k (at_get c);
      list_peers = λ c. P.list_peers (at_list c);
      list_policies = λ namespace c. P.list_policies namespace (at_list c);
      update_policy = λ p c. counted c (P.update_policy p (at_write c));
      update_policy_status = λ p c. counted c (P.update_policy_status p (at_write c));
      create_or_update = λ path mutate c. counted c (P.create_or_update path mutate (at_write c));
      set_controller_reference = P.set_controller_reference;
      contains_finalizer = P.contains_finalizer;
      add_finalizer = P.add_finalizer;
      remove_finalizer = P.remove_finalizer;
      is_zero = P.is_zero;
      set_status_condition = P.set_status_condition;
      label_selector_as_selector = P.label_selector_as_selector;
      matches = P.matches;
    }

    abbrev pub interfered_view : View P → View interfered
    interfered_view v = record {
      finalizers_at = λ c k. v.finalizers_at c.0 k;
      conditions_at = λ c k. v.conditions_at c.0 k;
      path_at = λ c k. v.path_at c.0 k;
    }

    -- Others may change everything but the conditions of policies and the computed paths.
    abbrev Leaves : View P → (P.Cluster → P.Cluster) → Type 0
    Leaves v f =
        (c : P.Cluster) (k : NamespacedName)
        → (v.conditions_at (f c) k ≡ v.conditions_at c k) × (v.path_at (f c) k ≡ v.path_at c k)

    pub record LeavesResults (v : View P) : Type 0 where
      pub get : (n : ℕ) → Leaves v (o.before_get n)
      pub list : (n : ℕ) → Leaves v (o.before_list n)
      pub write : (n : ℕ) → Leaves v (o.before_write n)

    module _ (v : View P) (L : IsLawful P v) (owns : LeavesResults v) where
      at_write-Leaves :
          (c : P.Cluster × ℕ) (k : NamespacedName)
          → (v.conditions_at (at_write c) k ≡ v.conditions_at c.0 k)
            × (v.path_at (at_write c) k ≡ v.path_at c.0 k)
      at_write-Leaves c k =
          let (a, x) = owns.write c.1 (at_list c) k in
          let (b, y) = owns.list c.1 (at_get c) k in
          let (d, z) = owns.get c.1 c.0 k in (a ∙ (b ∙ d), x ∙ (y ∙ z))

      uncounted :
          (x : Option P.Error × P.Cluster) (c c' : P.Cluster × ℕ)
          → counted c x ≡ (none, c')
          → x ≡ (none, c'.0)
      uncounted x c c' h = ap (λ (y : Option P.Error × (P.Cluster × ℕ)). (y.0, y.1.0)) h

      -- What the controllers rely on still holds.
      pub interfered-IsLawful : IsLawful interfered (interfered_view v)
      interfered-IsLawful = record {
        get-key = λ k c p h. L.get-key k (at_get c) p h;
        finalizers-update =
            λ p c c' h. L.finalizers-update p (at_write c) c'.0 (uncounted _ c c' h);
        conditions-update_status =
            λ p c c' h. L.conditions-update_status p (at_write c) c'.0 (uncounted _ c c' h);
        contains_finalizer_lem = L.contains_finalizer_lem;
        contains-add_finalizer = L.contains-add_finalizer;
        contains-remove_finalizer = L.contains-remove_finalizer;
        add_finalizer_rest = L.add_finalizer_rest;
        remove_finalizer_rest = L.remove_finalizer_rest;
        conditions-create_or_update = λ path mutate c k.
            L.conditions-create_or_update path mutate (at_write c) k ∙ (at_write-Leaves c k).0;
        path-update = λ p c k. L.path-update p (at_write c) k ∙ (at_write-Leaves c k).1;
        path-update_status =
            λ p c k. L.path-update_status p (at_write c) k ∙ (at_write-Leaves c k).1;
        path-create_or_update = λ path mutate s only c c' h k.
            L.path-create_or_update path mutate s only (at_write c) c'.0 (uncounted _ c c' h) k
            ∙ ap (λ (x : _). if same_key k (key_of path.meta) then some s else x)
                (at_write-Leaves c k).1;
      }

    module _ (v : View P) (L : IsLawful P v) (owns : LeavesResults v)
        (r : ScionPathPolicyReconciler interfered) (client : ScionClient interfered)
        (has_client : r.scion_client ≡ some client) where
      -- While others write to the server between any two calls of `Reconcile`, changing what they
      -- like but the conditions of policies and the computed paths: if the policy as it was read is
      -- active and has a preference, the peers are listed, no write that the call makes is refused, on
      -- the server as it then is, and the SCION service answers without an error, then the call
      -- returns no error. It has stored for every key the
      -- path that the answers say for the policy that it read and the peers that it listed. If each
      -- answer was ready it asks for no requeue and the conditions are those it read with "Ready"
      -- set; if not, it asks for a requeue after 10 seconds and no condition has changed.
      pub reconcile_with_others :
          (req : NamespacedName) (w : World interfered) (policy : PathPolicy P)
          (peers : List ScionClusterPeer) (preference : String)
          → P.get_policy req (o.before_get w.cluster.1 w.cluster.0) ≡ ok policy
          → P.is_zero policy.meta.deletion_timestamp ≡ true
          → P.contains_finalizer policy.meta cilion_finalizer ≡ true
          → policy.spec.preference ≡ some preference
          → P.list_peers (o.before_list w.cluster.1 (o.before_get w.cluster.1 w.cluster.0))
            ≡ ok peers
          → let got = (answers interfered client preference peers w.daemon).0 in
            AllAnswered interfered got
            → CallTaken interfered r policy client preference peers w
            → (w' : World interfered) × (res : CtrlResult) × (reconcile interfered r req w
                ≡ (returned res none, w'))
              × ((k : NamespacedName)
                  → v.path_at w'.cluster.0 k
                    ≡ latest interfered policy k got (v.path_at w.cluster.0 k))
              × Settled interfered
                  (interfered_view v)
                  (interfered-IsLawful v L owns)
                  r
                  policy
                  peers
                  res
                  w.cluster
                  w'.cluster
                  (all_ready interfered got)
      reconcile_with_others req w policy peers preference found kept has has_preference listed
            answered taken =
          let active : IsActive interfered r req w policy = record {
            found = found;
            kept = kept;
            finalized = has;
          } in
          let (w', run) =
            reconcile_succeeds interfered r policy client preference has_client has_preference req w
              peers active listed answered taken in
          let (wrote, settled) =
            reconcile_refines interfered (interfered_view v) (interfered-IsLawful v L owns) r req w
              policy peers client preference active listed has_client has_preference _ w' run in
          (w', _, run, wrote, settled)
