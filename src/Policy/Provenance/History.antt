-- ===== src/Policy/Provenance/History.antt =====
-- Where a computed path comes from: over all calls of `Reconcile` and all that others do in between.
use cillion.Base.{◌≡◌, sym, ◌∙◌, subst, ◌⊎◌, inl, inr, none, some, arith}
use cillion.Api.{NamespacedName, ScionComputedPathSpec}
use cillion.Platform.{Platform, View, IsLawful}
use cillion.Policy.{ScionPathPolicyReconciler, World, reconcile}
use cillion.Policy.Provenance.{WritesResults}
use cillion.Policy.Provenance.Calls.{Source, reconcile-Sourced}

module _ (P : Platform) (v : View P) (L : IsLawful P v) (writes : WritesResults P v)
    (r : ScionPathPolicyReconciler P) where
  -- The worlds that calls for any requests lead to. In between, others may change everything but
  -- the computed paths, and of these they may delete any.
  pub data Reaches (w0 : World P) : World P → Type 0 where
    start : Reaches w0 w0
    call : {w : World P} (req : NamespacedName) → Reaches w0 w → Reaches w0 (reconcile P r req w).1
    others :
        {w w' : World P}
        → ((k : NamespacedName)
            → (v.path_at w'.cluster k ≡ v.path_at w.cluster k) ⊎ (v.path_at w'.cluster k ≡ none))
        → Reaches w0 w
        → Reaches w0 w'

  -- If no path was stored at the start, then every computed path that is ever stored comes from a
  -- call of `Reconcile` in a world reached before: it is made of a ready answer that the SCION
  -- service gives, in some state of it, for a peer listed there, for a policy that was active
  -- there.
  pub stored_path-Source :
      (w0 : World P)
      → ((k : NamespacedName) → v.path_at w0.cluster k ≡ none)
      → (w : World P) → Reaches w0 w
      → (k : NamespacedName) (s : ScionComputedPathSpec) → v.path_at w.cluster k ≡ some s
      → (u : World P) × (req : NamespacedName) × Reaches w0 u × Source P v L writes r req u k s
  stored_path-Source w0 empty w start k s h = absurd (ground (arith, empty k))
  stored_path-Source w0 empty w (call {w = u} req before) k s h =
      elim (reconcile-Sourced P v L writes r req u k) [
        | inl same ↦ stored_path-Source w0 empty u before k s (sym same ∙ h)
        | inr (s', now, source) ↦
            let e : s' ≡ s = cc in
            (u, req, before, subst (λ (x : _). Source P v L writes r req u k x) e source)
      ]
  stored_path-Source w0 empty w (others {w = u} change before) k s h = elim (change k) [
    | inl same ↦ stored_path-Source w0 empty u before k s (sym same ∙ h)
    | inr gone ↦ absurd (ground arith)
  ]
