-- ===== src/Access/Server.antt =====
-- The API server with a role for the manager: what the role does not allow is refused.
use cillion.Base.{String, string_eq, ◌≡◌, refl, Bool, true, false, ◌&&◌, Option, some, List, []}
use cillion.Platform.{Platform, Result, err}
use cillion.Access.{Rule, allows, cilion_group, manager_role}

-- The manager's client reads from a cache that lists and watches the objects.
abbrev pub may_read : List Rule → String → Bool
may_read rules resource =
    allows rules cilion_group resource "get"
    && (allows rules cilion_group resource "list" && allows rules cilion_group resource "watch")

-- `CreateOrUpdate` gets the object, and creates or updates it.
abbrev pub may_store : List Rule → String → Bool
may_store rules resource =
    may_read rules resource
    && (allows rules cilion_group resource "create" && allows rules cilion_group resource "update")

module _ (P : Platform) (forbidden : P.Error) where
  abbrev refusing : {A : Type 0} → Bool → Result P.Error A → Result P.Error A
  refusing true x = x
  refusing false x = err forbidden

  abbrev guarding : Bool → Option P.Error × P.Cluster → P.Cluster → Option P.Error × P.Cluster
  guarding true x c = x
  guarding false x c = (some forbidden, c)

  abbrev guarding_list : {A : Type 0} → Bool → List A × Option P.Error → List A × Option P.Error
  guarding_list true x = x
  guarding_list false x = ([], some forbidden)

  abbrev pub enforced : List Rule → Platform
  enforced rules = record P {
    get_policy = λ k c. refusing (may_read rules "scionpathpolicies") (P.get_policy k c);
    list_peers = λ c. refusing (may_read rules "scionclusterpeers") (P.list_peers c);
    list_policies = λ namespace c.
        guarding_list (may_read rules "scionpathpolicies") (P.list_policies namespace c);
    update_policy = λ p c.
        guarding (allows rules cilion_group "scionpathpolicies" "update") (P.update_policy p c) c;
    update_policy_status = λ p c.
        guarding (allows rules cilion_group "scionpathpolicies/status" "update")
          (P.update_policy_status p c) c;
    create_or_update = λ o mutate c.
        guarding (may_store rules "scioncomputedpaths") (P.create_or_update o mutate c) c;
  }

  -- No policy gets a status.
  abbrev pub without_status : Platform
  without_status = record P { update_policy_status = λ p c. (some forbidden, c) }

  -- On a server that enforces the role of config/rbac/role.yaml, every call of the controllers works
  -- as without it, but the update of a policy's status, which is always refused.
  enforced-manager_role : enforced manager_role ≡ without_status
  unfolding string_eq
  enforced-manager_role = refl
