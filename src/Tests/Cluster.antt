-- ===== src/Tests/Cluster.antt =====
-- A small API server and SCION service that meet what the controllers rely on.
use cillion.Base.{
  ℕ, String, ◌==◌, string_eq, contains, if◌then◌else◌, ◌≡◌, refl, Bool, true, false, not, ◌&&◌,
  ◌||◌, Option, none, some, List, [], ◌∷◌, arith,
}
use cillion.Api.{
  NamespacedName, same_key, key_of, ObjectMeta, OwnerReference, Condition, ScionPathPolicy,
  ScionComputedPath, ScionComputedPathSpec, ScionClusterPeer,
}
use cillion.Policy.Ownership.{controller_name}
use cillion.Platform.{Platform, Result, ok, err, View, IsLawful, stored_or_gone}

pub data Failure : Type 0 where
  not_found conflict unreachable : Failure

abbrev pub Labels : Type 0
Labels = List (String × String)

abbrev pub Policy : Type 0
Policy = ScionPathPolicy Labels

pub record Store : Type 0 where
  pub policies : NamespacedName → Option Policy
  pub paths : NamespacedName → Option ScionComputedPath
  pub peers : List ScionClusterPeer
  pub listed : List Policy

abbrev put {ℓ} :
    {A : Type ℓ}
    → (NamespacedName → Option A)
    → NamespacedName
    → Option A
    → NamespacedName
    → Option A
put f k a j = if same_key j k then a else f j

abbrev renamed : NamespacedName → Policy → Policy
renamed k p = record p { meta = record p.meta { name = k.name; namespace = k.namespace } }

abbrev get_policy : NamespacedName → Store → Result Failure Policy
get_policy k c = elim (c.policies k) [ none ↦ err not_found | some p ↦ ok (renamed k p) ]

abbrev is_zero : Option ℕ → Bool
is_zero none = true
is_zero (some t) = false

abbrev kept : Policy → Option Policy
kept p =
    if is_zero p.meta.deletion_timestamp
    then some p
    else elim p.meta.finalizers [ [] ↦ none | _ ↦ some p ]

abbrev update_policy : Policy → Store → Option Failure × Store
update_policy p c = (none, record c { policies = put c.policies (key_of p.meta) (kept p) })

abbrev with_status : Option Policy → Policy → Policy
with_status none p = p
with_status (some old) p = record old { status = p.status }

abbrev update_policy_status : Policy → Store → Option Failure × Store
update_policy_status p c = (
  none,
  record c {
    policies = put c.policies (key_of p.meta) (some (with_status (c.policies (key_of p.meta)) p));
  },
)

abbrev pub stored_result :
    ScionComputedPath → Store → Result Failure ScionComputedPath → Option Failure × Store
stored_result o c (err e) = (some e, c)
stored_result o c (ok new) = (none, record c { paths = put c.paths (key_of o.meta) (some new) })

abbrev pub existing : ScionComputedPath → Option ScionComputedPath → ScionComputedPath
existing o none = o
existing o (some old) = old

abbrev create_or_update :
    ScionComputedPath
    → (ScionComputedPath → Result Failure ScionComputedPath)
    → Store
    → Option Failure × Store
create_or_update o f c = stored_result o c (f (existing o (c.paths (key_of o.meta))))

abbrev without : List String → String → List String
without [] f = []
without (g ∷ gs) f = if g == f then without gs f else g ∷ without gs f

abbrev all_in : Labels → Labels → Bool
all_in [] labels = true
all_in ((k, x) ∷ rest) labels = has labels && all_in rest labels
  where
    has : Labels → Bool
    has [] = false
    has ((j, y) ∷ more) = (k == j && x == y) || has more

abbrev set_condition : List Condition → Condition → List Condition
set_condition [] c = c ∷ []
set_condition (d ∷ ds) c = if d.type_ == c.type_ then c ∷ ds else d ∷ set_condition ds c

abbrev pub reference : ObjectMeta → OwnerReference
reference owner = record {
  kind = "ScionPathPolicy";
  name = owner.name;
  uid = owner.uid;
  controller = true;
}

-- The controller's reference is replaced.
abbrev pub replaced : OwnerReference → List OwnerReference → List OwnerReference
replaced ref [] = []
replaced ref (o ∷ os) = if o.controller then ref ∷ os else o ∷ replaced ref os

abbrev pub set_controller : ObjectMeta → ObjectMeta → Option String → Result Failure ObjectMeta
set_controller owner m none =
    ok (record m { owner_references = reference owner ∷ m.owner_references })
set_controller owner m (some name) =
    if name == owner.name
    then ok (record m { owner_references = replaced (reference owner) m.owner_references })
    else err conflict

abbrev pub toy : Platform
toy = record {
  Error = Failure;
  Cluster = Store;
  Daemon = ℕ;
  Scheme = Unit {0};
  LabelSelector = Labels;
  Selector = Labels;
  ignore_not_found = λ e. elim e [ not_found ↦ none | x ↦ some x ];
  get_policy = get_policy;
  list_peers = λ c. ok c.peers;
  list_policies = λ namespace c. (c.listed, none);
  update_policy = update_policy;
  update_policy_status = update_policy_status;
  create_or_update = create_or_update;
  set_controller_reference =
      λ scheme owner m. set_controller owner m (controller_name m.owner_references);
  contains_finalizer = λ m f. contains m.finalizers f;
  add_finalizer = λ m f. record m { finalizers = f ∷ m.finalizers };
  remove_finalizer = λ m f. record m { finalizers = without m.finalizers f };
  is_zero = is_zero;
  set_status_condition = set_condition;
  label_selector_as_selector = ok;
  matches = all_in;
}

abbrev pub spec_of : Option ScionComputedPath → Option ScionComputedPathSpec
spec_of none = none
spec_of (some p) = some p.spec

abbrev finalizers_of : Option Policy → Option (List String)
finalizers_of none = none
finalizers_of (some p) = some p.meta.finalizers

abbrev conditions_of : Option Policy → Option (List Condition)
conditions_of none = none
conditions_of (some p) = some p.status.conditions

abbrev pub toy_view : View toy
toy_view = record {
  finalizers_at = λ c k. finalizers_of (c.policies k);
  conditions_at = λ c k. conditions_of (c.policies k);
  path_at = λ c k. spec_of (c.paths k);
}

same_key_self : (k : NamespacedName) → same_key k k ≡ true
same_key_self k = ground arith

get-key : (k : NamespacedName) (c : Store) (p : Policy) → get_policy k c ≡ ok p → key_of p.meta ≡ k
get-key k c p h = ground arith

finalizers-kept :
    (p : Policy)
    → finalizers_of (kept p) ≡ (
        if is_zero p.meta.deletion_timestamp
        then some p.meta.finalizers
        else stored_or_gone p.meta.finalizers)
finalizers-kept p = ground arith

contains-without :
    (gs : List String) (f g : String) → contains (without gs f) g ≡ (not (g == f) && contains gs g)
contains-without [] f g = ground arith
contains-without (x ∷ gs) f g = ground (arith, contains-without gs f g)

conditions-with_status :
    (old : Option Policy) (p : Policy)
    → conditions_of (some (with_status old p)) ≡ some p.status.conditions
conditions-with_status none p = refl
conditions-with_status (some old) p = refl

path-stored :
    (o : ScionComputedPath) (mutate : ScionComputedPath → Result Failure ScionComputedPath)
    (s : ScionComputedPathSpec)
    → ((old new : ScionComputedPath) → mutate old ≡ ok new → new.spec ≡ s)
    → (c c' : Store) → create_or_update o mutate c ≡ (none, c')
    → (k : NamespacedName)
    → spec_of (c'.paths k) ≡ (if same_key k (key_of o.meta) then some s else spec_of (c.paths k))
path-stored o mutate s h c c' e k =
    by_result (mutate (existing o (c.paths (key_of o.meta)))) (h _) e
  where
    by_result :
        (r : Result Failure ScionComputedPath)
        → ((new : ScionComputedPath) → r ≡ ok new → new.spec ≡ s)
        → stored_result o c r ≡ (none, c')
        → spec_of (c'.paths k)
          ≡ (if same_key k (key_of o.meta) then some s else spec_of (c.paths k))
    by_result (ok new) g e = ground (arith, g new)
    by_result (err x) g e = ground arith

stored_conditions :
    (o : ScionComputedPath) (c : Store) (r : Result Failure ScionComputedPath) (k : NamespacedName)
    → conditions_of ((stored_result o c r).1.policies k) ≡ conditions_of (c.policies k)
stored_conditions o c (ok new) k = refl
stored_conditions o c (err e) k = refl

pub toy-IsLawful : IsLawful toy toy_view
toy-IsLawful = record {
  get-key = get-key;
  finalizers-update = λ p c c' h. ground (arith, finalizers-kept p, same_key_self (key_of p.meta));
  conditions-update_status = λ p c c' h.
      ground (
        arith,
        conditions-with_status (c.policies (key_of p.meta)) p,
        same_key_self (key_of p.meta),
      );
  path-update_status = λ p c k. refl;
  contains_finalizer_lem = λ m f. refl;
  contains-add_finalizer = λ m f g. refl;
  contains-remove_finalizer = λ m f g. contains-without m.finalizers f g;
  add_finalizer_rest = λ m f. refl;
  remove_finalizer_rest = λ m f. refl;
  conditions-create_or_update = λ o mutate c k. stored_conditions o c _ k;
  path-update = λ p c k. refl;
  path-create_or_update = path-stored;
}
