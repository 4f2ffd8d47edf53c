-- ===== src/Watches/Wakeups.antt =====
-- How often one pod's life wakes the mapper.
use cillion.Base.{ℕ, ◌+◌, ◌==◌, string_eq, if◌then◌else◌, ◌≡◌, ◌≢◌, List, [], ◌∷◌, arith}
use cillion.Platform.{Platform}
use cillion.Watches.{Pod, pod, Event, create, update, delete, Handlers, IsLawful, pod_ip_assigned}

-- Once assigned, the address stays assigned.
abbrev pub KeepsIp : Pod → List Pod → Type 0
KeepsIp p [] = Unit
KeepsIp p (q ∷ qs) = (p.pod_ip ≢ "" → q.pod_ip ≢ "") × KeepsIp q qs

abbrev pub last_of : Pod → List Pod → Pod
last_of p [] = p
last_of p (q ∷ qs) = last_of q qs

last_of-has_ip :
    (p : Pod) (qs : List Pod) → KeepsIp p qs → p.pod_ip ≢ "" → (last_of p qs).pod_ip ≢ ""
last_of-has_ip p [] k has = has
last_of-has_ip p (q ∷ qs) k has = last_of-has_ip q qs k.1 (k.0 has)

module _ (P : Platform) (h : Handlers P) where
  abbrev pub passes : Event P → ℕ
  passes e = if pod_ip_assigned P h e then 1 else 0

  -- The events that pass while the pod goes through these states.
  abbrev pub updates_passed : Pod → List Pod → ℕ
  updates_passed p [] = 0
  updates_passed p (q ∷ qs) = passes (update (pod p) (pod q)) + updates_passed q qs

  updates_passed_lem :
      (p : Pod) (qs : List Pod)
      → KeepsIp p qs
      → updates_passed p qs
        ≡ (if p.pod_ip == "" then (if (last_of p qs).pod_ip == "" then 0 else 1) else 0)
  unfolding pod_ip_assigned
  updates_passed_lem p [] k = ground arith
  updates_passed_lem p (q ∷ qs) k =
      ground (arith, updates_passed_lem q qs k.1, last_of-has_ip q qs k.1, k.0)

  -- A pod that keeps its address once it has one wakes the mapper exactly once while it exists, with
  -- its creation or a later update, if it ends up with an address, and never if it does not. Its
  -- deletion wakes the mapper once more in either case, if a nil function of the predicate lets
  -- every event through.
  pub pod_life_wakes :
      (p : Pod) (qs : List Pod)
      → IsLawful P h
      → KeepsIp p qs
      → (passes (create (pod p)) + updates_passed p qs
          ≡ (if (last_of p qs).pod_ip == "" then 0 else 1))
        × (passes (delete (pod (last_of p qs))) ≡ 1)
  unfolding pod_ip_assigned
  pod_life_wakes p qs lawful k = (
    ground (arith, updates_passed_lem p qs k, last_of-has_ip p qs k),
    ground (arith, lawful.nil_func_lem (delete (pod (last_of p qs)))),
  )
