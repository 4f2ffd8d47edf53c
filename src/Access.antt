-- ===== src/Access.antt =====
-- What the controllers may ask of the API server: the kubebuilder markers of
-- internal/controller/*_controller.go, and config/rbac/role.yaml, which is made of them.
pub mod Role
pub mod Server
pub mod Status
use cillion.Base.{String, ◌==◌, string_eq, contains, Bool, false, ◌&&◌, ◌||◌, List, [], ◌∷◌, ◌++◌}

-- A `PolicyRule`. The rules have no wildcards.
pub record Rule : Type 0 where
  pub api_groups : List String
  pub resources : List String
  pub verbs : List String

-- RBAC: some rule names the group, the resource and the verb.
abbrev pub covers : Rule → String → String → String → Bool
covers rule group resource verb =
    contains rule.api_groups group && (contains rule.resources resource && contains rule.verbs verb)

abbrev pub allows : List Rule → String → String → String → Bool
allows [] group resource verb = false
allows (rule ∷ rules) group resource verb =
    covers rule group resource verb || allows rules group resource verb

abbrev pub cilion_group : String
cilion_group = "cilion.cilion.io"

-- `+kubebuilder:rbac`, on one resource; the group "core" is written "" in a role.
abbrev marker : String → String → List String → Rule
marker group resource verbs = record {
  api_groups = group ∷ [];
  resources = resource ∷ [];
  verbs = verbs;
}

abbrev pub all_verbs : List String
all_verbs = "get" ∷ "list" ∷ "watch" ∷ "create" ∷ "update" ∷ "patch" ∷ "delete" ∷ []

abbrev pub read_verbs : List String
read_verbs = "get" ∷ "list" ∷ "watch" ∷ []

abbrev pub status_verbs : List String
status_verbs = "get" ∷ "update" ∷ "patch" ∷ []

abbrev pub policy_markers : List Rule
policy_markers =
    marker cilion_group "scionpathpolicies" all_verbs
    ∷ marker cilion_group "scioncomputedpaths" all_verbs
    ∷ marker cilion_group "scionclusterpeers" read_verbs
    ∷ marker "" "pods" read_verbs
    ∷ []

abbrev pub peer_markers : List Rule
peer_markers =
    marker cilion_group "scionclusterpeers" all_verbs
    ∷ marker cilion_group "scionclusterpeers/status" status_verbs
    ∷ marker cilion_group "scionclusterpeers/finalizers" ("update" ∷ [])
    ∷ []

abbrev pub path_markers : List Rule
path_markers =
    marker cilion_group "scioncomputedpaths" all_verbs
    ∷ marker cilion_group "scioncomputedpaths/status" status_verbs
    ∷ marker cilion_group "scioncomputedpaths/finalizers" ("update" ∷ [])
    ∷ []

-- The ClusterRole "manager-role", which the service account of the manager is bound to.
abbrev pub manager_role : List Rule
manager_role =
    record { api_groups = "" ∷ []; resources = "pods" ∷ []; verbs = "get" ∷ "list" ∷ "watch" ∷ [] }
    ∷ record {
      api_groups = cilion_group ∷ [];
      resources = "scionclusterpeers" ∷ "scioncomputedpaths" ∷ "scionpathpolicies" ∷ [];
      verbs = "create" ∷ "delete" ∷ "get" ∷ "list" ∷ "patch" ∷ "update" ∷ "watch" ∷ [];
    }
    ∷ record {
      api_groups = cilion_group ∷ [];
      resources = "scionclusterpeers/finalizers" ∷ "scioncomputedpaths/finalizers" ∷ [];
      verbs = "update" ∷ [];
    }
    ∷ record {
      api_groups = cilion_group ∷ [];
      resources = "scionclusterpeers/status" ∷ "scioncomputedpaths/status" ∷ [];
      verbs = "get" ∷ "patch" ∷ "update" ∷ [];
    }
    ∷ []
