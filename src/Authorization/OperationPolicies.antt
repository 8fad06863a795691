-- ===== src/Authorization/OperationPolicies.antt =====
-- The operations whose requirement differs by role
-- (src/core/security/authorization/operation-role-policy.ts).
use cyber_hub_api.Prelude.{
  Bool, true, false, Option, none, some, List, [], ◌∷◌, ◌++◌, String, str_eq, last_entry,
}
use cyber_hub_api.Authorization.Types.{
  Role, same_role, ScopeType, ApiId, role_mentor, role_consultant, role_admin, asg, auth_scope,
}

pub record OperationRolePolicy : Type 0 where
  pub scopes : List ScopeType
  pub assignment_required : Bool
  pub auth_scope_required : Bool
  pub resource_context_required : Bool
  pub condition_ids : Option (List String)

abbrev pub OperationRolePolicies : Type 0
OperationRolePolicies = List (Role × OperationRolePolicy)

-- No row of the table has condition ids.
abbrev policy : List ScopeType → Bool → Bool → Bool → OperationRolePolicy
policy scopes assignment auth_scope_too resource = record {
  scopes = scopes;
  assignment_required = assignment;
  auth_scope_required = auth_scope_too;
  resource_context_required = resource;
  condition_ids = none;
}

abbrev assessment_overrides : List (ApiId × OperationRolePolicies)
assessment_overrides =
    (
      "API-ASM-001",
      (role_consultant, policy (asg ∷ auth_scope ∷ []) true true true)
          ∷ (role_admin, policy (auth_scope ∷ []) false true true)
          ∷ [],
    )
    ∷ (
      "API-ASM-002",
      (role_consultant, policy (asg ∷ []) true false true)
          ∷ (role_admin, policy [] false false false)
          ∷ [],
    )
    ∷ (
      "API-ASM-003",
      (role_consultant, policy (asg ∷ []) true false true)
          ∷ (role_admin, policy [] false false false)
          ∷ [],
    )
    ∷ (
      "API-ASM-004",
      (role_consultant, policy (asg ∷ auth_scope ∷ []) true true true)
          ∷ (role_admin, policy (auth_scope ∷ []) false true true)
          ∷ [],
    )
    ∷ (
      "API-ASM-005",
      (role_consultant, policy (asg ∷ auth_scope ∷ []) true true true)
          ∷ (role_admin, policy (auth_scope ∷ []) false true true)
          ∷ [],
    )
    ∷ (
      "API-COMP-001",
      (role_mentor, policy (asg ∷ []) true false true)
          ∷ (role_admin, policy [] false false false)
          ∷ [],
    )
    ∷ (
      "API-COMP-002",
      (role_mentor, policy (asg ∷ []) true false true)
          ∷ (role_admin, policy [] false false false)
          ∷ [],
    )
    ∷ (
      "API-CON-006",
      (role_consultant, policy (asg ∷ []) true false true)
          ∷ (role_admin, policy [] false false false)
          ∷ [],
    )
    ∷ (
      "API-CON-007",
      (role_consultant, policy (asg ∷ []) true false true)
          ∷ (role_admin, policy [] false false false)
          ∷ [],
    )
    ∷ []

abbrev consulting_overrides : List (ApiId × OperationRolePolicies)
consulting_overrides =
    (
      "API-CON-009",
      (role_consultant, policy (asg ∷ []) true false true)
          ∷ (role_admin, policy [] false false false)
          ∷ [],
    )
    ∷ (
      "API-CON-010",
      (role_consultant, policy (asg ∷ []) true false true)
          ∷ (role_admin, policy [] false false false)
          ∷ [],
    )
    ∷ (
      "API-CON-011",
      (role_consultant, policy (asg ∷ []) true false true)
          ∷ (role_admin, policy [] false false false)
          ∷ [],
    )
    ∷ (
      "API-CON-012",
      (role_consultant, policy (asg ∷ auth_scope ∷ []) true true true)
          ∷ (role_admin, policy (auth_scope ∷ []) false true true)
          ∷ [],
    )
    ∷ (
      "API-CON-013",
      (role_consultant, policy (asg ∷ []) true false true)
          ∷ (role_admin, policy [] false false false)
          ∷ [],
    )
    ∷ (
      "API-CON-014",
      (role_consultant, policy (asg ∷ []) true false true)
          ∷ (role_admin, policy [] false false false)
          ∷ [],
    )
    ∷ (
      "API-CON-015",
      (role_consultant, policy (asg ∷ []) true false true)
          ∷ (role_admin, policy [] false false false)
          ∷ [],
    )
    ∷ (
      "API-FND-001",
      (role_consultant, policy (asg ∷ auth_scope ∷ []) true true true)
          ∷ (role_admin, policy (auth_scope ∷ []) false true true)
          ∷ [],
    )
    ∷ (
      "API-FND-002",
      (role_consultant, policy (asg ∷ []) true false true)
          ∷ (role_admin, policy [] false false false)
          ∷ [],
    )
    ∷ []

abbrev finding_overrides : List (ApiId × OperationRolePolicies)
finding_overrides =
    (
      "API-FND-003",
      (role_consultant, policy (asg ∷ []) true false true)
          ∷ (role_admin, policy [] false false false)
          ∷ [],
    )
    ∷ (
      "API-FND-004",
      (role_consultant, policy (asg ∷ auth_scope ∷ []) true true true)
          ∷ (role_admin, policy (auth_scope ∷ []) false true true)
          ∷ [],
    )
    ∷ (
      "API-FND-005",
      (role_consultant, policy (asg ∷ []) true false true)
          ∷ (role_admin, policy [] false false false)
          ∷ [],
    )
    ∷ (
      "API-FND-006",
      (role_consultant, policy (asg ∷ auth_scope ∷ []) true true true)
          ∷ (role_admin, policy (auth_scope ∷ []) false true true)
          ∷ [],
    )
    ∷ (
      "API-FND-007",
      (role_consultant, policy (asg ∷ auth_scope ∷ []) true true true)
          ∷ (role_admin, policy (auth_scope ∷ []) false true true)
          ∷ [],
    )
    ∷ (
      "API-MON-004",
      (role_consultant, policy (asg ∷ []) true false true)
          ∷ (role_admin, policy [] false false false)
          ∷ [],
    )
    ∷ (
      "API-REV-001",
      (role_mentor, policy (asg ∷ []) true false true)
          ∷ (role_admin, policy [] false false false)
          ∷ [],
    )
    ∷ (
      "API-REV-002",
      (role_mentor, policy (asg ∷ []) true false true)
          ∷ (role_admin, policy [] false false false)
          ∷ [],
    )
    ∷ (
      "API-REV-003",
      (role_mentor, policy (asg ∷ []) true false true)
          ∷ (role_admin, policy [] false false false)
          ∷ [],
    )
    ∷ []

abbrev report_overrides : List (ApiId × OperationRolePolicies)
report_overrides =
    (
      "API-REV-004",
      (role_mentor, policy (asg ∷ []) true false true)
          ∷ (role_admin, policy [] false false false)
          ∷ [],
    )
    ∷ (
      "API-REV-005",
      (role_mentor, policy (asg ∷ []) true false true)
          ∷ (role_admin, policy [] false false false)
          ∷ [],
    )
    ∷ (
      "API-RPT-001",
      (role_consultant, policy (asg ∷ []) true false true)
          ∷ (role_admin, policy [] false false false)
          ∷ [],
    )
    ∷ (
      "API-RPT-002",
      (role_consultant, policy (asg ∷ []) true false true)
          ∷ (role_admin, policy [] false false false)
          ∷ [],
    )
    ∷ (
      "API-RPT-003",
      (role_consultant, policy (asg ∷ []) true false true)
          ∷ (role_admin, policy [] false false false)
          ∷ [],
    )
    ∷ (
      "API-RPT-004",
      (role_consultant, policy (asg ∷ []) true false true)
          ∷ (role_admin, policy [] false false false)
          ∷ [],
    )
    ∷ (
      "API-RPT-006",
      (role_consultant, policy (asg ∷ []) true false true)
          ∷ (role_admin, policy [] false false false)
          ∷ [],
    )
    ∷ (
      "API-RPT-013",
      (role_consultant, policy (asg ∷ []) true false true)
          ∷ (role_admin, policy [] false false false)
          ∷ [],
    )
    ∷ (
      "API-SCR-001",
      (role_consultant, policy (asg ∷ auth_scope ∷ []) true true true)
          ∷ (role_admin, policy (auth_scope ∷ []) false true true)
          ∷ [],
    )
    ∷ (
      "API-SCR-002",
      (role_consultant, policy (asg ∷ []) true false true)
          ∷ (role_admin, policy [] false false false)
          ∷ [],
    )
    ∷ []

abbrev pub operation_role_policies : List (ApiId × OperationRolePolicies)
operation_role_policies =
    assessment_overrides ++ consulting_overrides ++ finding_overrides ++ report_overrides

-- `OPERATION_ROLE_POLICIES[apiId]?.[role]`
unfoldable pub get_operation_role_policy : ApiId → Role → Option OperationRolePolicy
get_operation_role_policy api_id role = elim (last_entry str_eq api_id operation_role_policies) [
  | none ↦ none
  | some policies ↦ last_entry same_role role policies
]
