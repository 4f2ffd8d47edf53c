-- ===== src/Tests/Sources.antt =====
-- Where the computed paths of the small cluster come from.
use cillion.Base.{string_eq, ◌≡◌, refl, ◌⊎◌, inl, inr, some, true, [], ◌∷◌, arith, Bool-cases}
use cillion.Api.{NamespacedName, same_key, key_of, ScionComputedPath, ScionComputedPathSpec}
use cillion.Platform.{Result, ok, err}
use cillion.Policy.{World}
use cillion.Policy.Provenance.{WritesResults}
use cillion.Policy.Provenance.Calls.{Source, Sourced, reconcile-Sourced}
use cillion.Policy.Provenance.History.{Reaches, start, call, stored_path-Source}
use cillion.Tests.Cluster.{
  Failure, Store, existing, stored_result, spec_of, toy, toy_view, toy-IsLawful,
}
use cillion.Tests.Controller.{request, reconciler, run}
use cillion.Tests.Policies.{start as three_peers_world, after}

stored-cases :
    (o : ScionComputedPath) (c : Store) (k : NamespacedName) (r : Result Failure ScionComputedPath)
    → (spec_of ((stored_result o c r).1.paths k) ≡ spec_of (c.paths k))
      ⊎ ((new : ScionComputedPath) × (r ≡ ok new)
          × (same_key k (key_of o.meta) ≡ true)
          × (spec_of ((stored_result o c r).1.paths k) ≡ some new.spec))
stored-cases o c k (err e) = inl refl
stored-cases o c k (ok new) = elim (Bool-cases (same_key k (key_of o.meta))) [
  | inl same ↦ inr (new, refl, same, ground arith)
  | inr other ↦ inl (ground arith)
]

toy-WritesResults : WritesResults toy toy_view
toy-WritesResults = record {
  path-create_or_update_any = λ o f c k.
      elim (stored-cases o c k (f (existing o (c.paths (key_of o.meta))))) [
        | inl same ↦ inl same
        | inr (new, made, key, stored) ↦
            inr (existing o (c.paths (key_of o.meta)), new, made, key, stored)
      ];
}

abbrev near_path : NamespacedName
near_path = record { name = "billing-to-near"; namespace = "default" }

abbrev near_spec : ScionComputedPathSpec
near_spec = record {
  policy_ref = "billing";
  destination_cidr = "10.244.2.0/24";
  next_hop_ip = "198.51.100.42";
  hop_fields = 1 ∷ 2 ∷ [];
}

near_stored : toy_view.path_at after.cluster near_path ≡ some near_spec
unfolding run
near_stored = refl

reconcile-Sourced_example :
    Sourced toy toy_view toy-IsLawful toy-WritesResults reconciler request three_peers_world
      near_path after.cluster
reconcile-Sourced_example =
    reconcile-Sourced toy toy_view toy-IsLawful toy-WritesResults reconciler request
      three_peers_world near_path

stored_path-Source_example :
    (u : World toy) × (req : NamespacedName) × Reaches toy toy_view toy-IsLawful toy-WritesResults
      reconciler three_peers_world u
    × Source toy toy_view toy-IsLawful toy-WritesResults reconciler req u near_path near_spec
stored_path-Source_example =
    stored_path-Source toy toy_view toy-IsLawful toy-WritesResults reconciler three_peers_world
      (λ k. refl) after (call request start) near_path near_spec near_stored
