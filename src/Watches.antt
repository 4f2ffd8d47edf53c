-- ===== src/Watches.antt =====
-- internal/controller/scionpathpolicy_controller.go: `SetupWithManager`, the predicate on pods, the
-- mapper from a pod to policies, and which requests an event of a watched object leads to.
pub mod Wakeups
pub mod Mapper
pub mod Peers
use cillion.Base.{
  String, ◌==◌, string_eq, if◌then◌else◌, ◌≡◌, Bool, true, false, not, ◌&&◌, List, [], ◌∷◌, ◌++◌,
}
use cillion.Api.{NamespacedName, key_of, ObjectMeta, ScionClusterPeer}
use cillion.Platform.{Platform, ok, err}
use cillion.Policy.{PathPolicy, default_policy_name}

-- `corev1.Pod`, by what the controller reads.
pub record Pod : Type 0 where
  pub meta : ObjectMeta
  pub pod_ip : String

-- A `client.Object` by its dynamic type.
pub data Object (P : Platform) : Type 0 where
  pod : Pod → Object P
  policy : PathPolicy P → Object P
  peer : ScionClusterPeer → Object P
  other : ObjectMeta → Object P

pub data Event (P : Platform) : Type 0 where
  create : Object P → Event P
  update : Object P → Object P → Event P
  delete : Object P → Event P
  generic : Object P → Event P

module _ (P : Platform) where
  abbrev pub meta_of : Object P → ObjectMeta
  meta_of (pod o) = o.meta
  meta_of (policy o) = o.meta
  meta_of (peer o) = o.meta
  meta_of (other o) = o

  -- The object that an event is about; of an update, the new one.
  abbrev pub object_of : Event P → Object P
  object_of (create o) = o
  object_of (update old new) = new
  object_of (delete o) = o
  object_of (generic o) = o

  -- What controller-runtime adds: `predicate.Funcs` where a function is nil, the generation
  -- predicate, and the two event handlers.
  pub record Handlers : Type 0 where
    pub nil_func : Event P → Bool
    pub generation_changed : Event P → Bool
    pub request_for_object : Event P → List NamespacedName
    pub requests_from_map_func : (Object P → List NamespacedName) → Event P → List NamespacedName

  pub record IsLawful (h : Handlers) : Type 0 where
    -- "a Request containing the Name and Namespace of the object that is the source of the Event"
    pub request_for_object_lem :
        (e : Event P) → h.request_for_object e ≡ key_of (meta_of (object_of e)) ∷ []
    -- A nil function lets every event through.
    pub nil_func_lem : (e : Event P) → h.nil_func e ≡ true

  abbrev has_ip : Pod → Bool
  has_ip p = not (p.pod_ip == "")

  update_func : Object P → Object P → Bool
  update_func (pod old) (pod new) = old.pod_ip == "" && has_ip new
  update_func _ _ = false

  create_func : Object P → Bool
  create_func (pod p) = has_ip p
  create_func _ = false

  -- `podIPAssignedPredicate`
  unfoldable pub pod_ip_assigned : Handlers → Event P → Bool
  unfolding update_func create_func
  pod_ip_assigned h (create o) = create_func o
  pod_ip_assigned h (update old new) = update_func old new
  pod_ip_assigned h (delete o) = h.nil_func (delete o)
  pod_ip_assigned h (generic o) = h.nil_func (generic o)

  -- A selector that cannot be converted is skipped.
  unfoldable pub selects : PathPolicy P → Pod → Bool
  selects p o = elim (P.label_selector_as_selector p.spec.pod_selector) [
    | err e ↦ false
    | ok selector ↦ P.matches selector o.meta.labels
  ]

  abbrev pub default_request : NamespacedName
  default_request = record { name = default_policy_name; namespace = "kube-system" }

  -- The loop over `policies.Items`, with `requests` and `hasSpecificPolicy`.
  unfoldable pub match_policies :
      Pod → List (PathPolicy P) → List NamespacedName → Bool → List NamespacedName × Bool
  match_policies o [] requests specific = (requests, specific)
  match_policies o (p ∷ policies) requests specific =
      let found = match_policies o policies (requests ++ key_of p.meta ∷ []) true in
      let next = match_policies o policies requests specific in if selects p o then found else next

  -- `podToPolicyMapper`; the error of `List` is dropped.
  unfoldable pub pod_to_policy : P.Cluster → Object P → List NamespacedName
  unfolding match_policies
  pod_to_policy c (pod o) =
      let (requests, specific) = match_policies o (P.list_policies o.meta.namespace c).0 [] false in
      if not specific then requests ++ default_request ∷ [] else requests
  pod_to_policy c _ = []

  -- The three watches of the controller.
  pub data Watch : Type 0 where
    policies pods peers : Watch

  -- The requests that an event on a watch puts into the queue.
  unfoldable pub enqueued : Handlers → P.Cluster → Watch → Event P → List NamespacedName
  enqueued h c policies e = if h.generation_changed e then h.request_for_object e else []
  enqueued h c pods e =
      if pod_ip_assigned h e then h.requests_from_map_func (pod_to_policy c) e else []
  enqueued h c peers e = h.request_for_object e
