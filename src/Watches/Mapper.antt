-- ===== src/Watches/Mapper.antt =====
-- The mapper's loop against its specification.
use cillion.Base.{
  ◌≡◌, ◌≢◌, refl, sym, ◌∙◌, Bool, true, false, not, if◌then◌else◌, List, [], ◌∷◌, ◌++◌, arith,
}
use cillion.Api.{NamespacedName, key_of}
use cillion.Platform.{Platform}
use cillion.Policy.{PathPolicy}
use cillion.Watches.{
  Pod, pod, policy, peer, other, selects, default_request, match_policies, pod_to_policy,
}
use mathlib.Core.List.{append_assoc, append-nil}

module _ (P : Platform) (o : Pod) where
  -- The policies that select the pod, in the order of the list.
  abbrev pub selecting : List (PathPolicy P) → List (PathPolicy P)
  selecting [] = []
  selecting (p ∷ ps) = if selects P p o then p ∷ selecting ps else selecting ps

  abbrev pub keys : List (PathPolicy P) → List NamespacedName
  keys [] = []
  keys (p ∷ ps) = key_of p.meta ∷ keys ps

  abbrev pub any : List (PathPolicy P) → Bool
  any [] = false
  any (p ∷ ps) = true

  match_policies_lem :
      (ps : List (PathPolicy P)) (requests : List NamespacedName) (specific : Bool)
      → match_policies P o ps requests specific
        ≡ (requests ++ keys (selecting ps), if any (selecting ps) then true else specific)
  unfolding match_policies
  match_policies_lem [] requests specific = rw append-nil
  match_policies_lem (p ∷ ps) requests specific = ground (
    arith,
    match_policies_lem ps (requests ++ key_of p.meta ∷ []) true,
    match_policies_lem ps requests specific,
    append_assoc requests (key_of p.meta ∷ []) (keys (selecting ps)),
  )

  abbrev pub or_default : List NamespacedName → List NamespacedName
  or_default [] = default_request P ∷ []
  or_default (k ∷ ks) = k ∷ ks

  finished :
      (ps : List (PathPolicy P))
      → (if not (if any ps then true else false)
          then ([] ++ keys ps) ++ default_request P ∷ []
          else [] ++ keys ps)
        ≡ or_default (keys ps)
  finished [] = refl
  finished (p ∷ ps) = refl

  or_default-ne-nil : (ks : List NamespacedName) → or_default ks ≢ []
  or_default-ne-nil [] e = cc
  or_default-ne-nil (k ∷ ks) e = cc

  pod_to_policy-or_default :
      (c : P.Cluster)
      → pod_to_policy P c (pod o)
        ≡ or_default (keys (selecting (P.list_policies o.meta.namespace c).0))
  unfolding pod_to_policy
  pod_to_policy-or_default c =
      let ps = (P.list_policies o.meta.namespace c).0 in
      rw (match_policies_lem ps [] false) (finished (selecting ps))

  -- A pod is mapped to the policies of its namespace that select it, each once and in their order,
  -- and to the default policy alone if there is none, also when the list call failed and left none.
  -- Any other object is mapped to nothing.
  pub pod_to_policy_lem :
      (c : P.Cluster)
      → (pod_to_policy P c (pod o)
          ≡ or_default (keys (selecting (P.list_policies o.meta.namespace c).0)))
        × (pod_to_policy P c (pod o) ≢ [])
        × ((p : PathPolicy P) → pod_to_policy P c (policy p) ≡ [])
        × ((p : _) → pod_to_policy P c (peer p) ≡ [])
        × ((m : _) → pod_to_policy P c (other m) ≡ [])
  unfolding pod_to_policy
  pod_to_policy_lem c = (
    pod_to_policy-or_default c,
    λ z. or_default-ne-nil _ (sym (pod_to_policy-or_default c) ∙ z),
    λ p. refl,
    λ p. refl,
    λ m. refl,
  )
