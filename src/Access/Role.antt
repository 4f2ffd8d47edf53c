-- ===== src/Access/Role.antt =====
-- The role is what the markers say.
use cillion.Base.{String, string_eq, ◌≡◌, ◌++◌, arith}
use cillion.Access.{allows, policy_markers, peer_markers, path_markers, manager_role}

-- For every group, resource and verb: config/rbac/role.yaml allows it exactly if one of the markers
-- in the three controllers does.
pub allows-manager_role :
    (group resource verb : String)
    → allows manager_role group resource verb
      ≡ allows (policy_markers ++ (peer_markers ++ path_markers)) group resource verb
allows-manager_role group resource verb = ground arith
