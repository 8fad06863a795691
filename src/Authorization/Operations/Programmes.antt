-- ===== src/Authorization/Operations/Programmes.antt =====
-- Rows of API_AUTHORIZATION_MAP (src/core/security/authorization/api-authorization-map.ts).
use cyber_hub_api.Prelude.{true, false, some, List, [], ◌∷◌, ◌++◌}
use cyber_hub_api.Authorization.Types.{
  role_consultant, role_admin, asg, public, auth_scope, public_route,
}
use cyber_hub_api.Authorization.Operations.Row.{ApiOperationAuthorization, operation}

abbrev pub fnd_operations_1 : List ApiOperationAuthorization
fnd_operations_1 =
    record (operation "API-FND-001" "POST" "/assessments/{assessmentId}/findings") {
      permission_key = some "finding.manage_assigned";
      roles = role_consultant ∷ role_admin ∷ [];
      scope = asg ∷ auth_scope ∷ [];
      resource_context_required = true;
      assignment_required = true;
      auth_scope_required = true;
      workflow_validation_required = true;
      audit_required = true;
    }
    ∷ record (operation "API-FND-002" "GET" "/assessments/{assessmentId}/findings") {
      permission_key = some "finding.manage_assigned";
      roles = role_consultant ∷ role_admin ∷ [];
      scope = asg ∷ [];
      resource_context_required = true;
      assignment_required = true;
    }
    ∷ record (operation "API-FND-003" "GET" "/findings/{findingId}") {
      permission_key = some "finding.manage_assigned";
      roles = role_consultant ∷ role_admin ∷ [];
      scope = asg ∷ [];
      resource_context_required = true;
      assignment_required = true;
    }
    ∷ record (operation "API-FND-004" "PATCH" "/findings/{findingId}") {
      permission_key = some "finding.manage_assigned";
      roles = role_consultant ∷ role_admin ∷ [];
      scope = asg ∷ auth_scope ∷ [];
      resource_context_required = true;
      assignment_required = true;
      auth_scope_required = true;
      workflow_validation_required = true;
      audit_required = true;
    }
    ∷ record (operation "API-FND-005" "POST" "/findings/{findingId}/start-remediation") {
      permission_key = some "finding.manage_assigned";
      roles = role_consultant ∷ role_admin ∷ [];
      scope = asg ∷ [];
      resource_context_required = true;
      assignment_required = true;
      workflow_validation_required = true;
      audit_required = true;
    }
    ∷ record (operation "API-FND-006" "POST" "/findings/{findingId}/resolve") {
      permission_key = some "finding.manage_assigned";
      roles = role_consultant ∷ role_admin ∷ [];
      scope = asg ∷ auth_scope ∷ [];
      resource_context_required = true;
      assignment_required = true;
      auth_scope_required = true;
      workflow_validation_required = true;
      audit_required = true;
    }
    ∷ []

abbrev pub fnd_operations_2 : List ApiOperationAuthorization
fnd_operations_2 =
    record (operation "API-FND-007" "POST" "/findings/{findingId}/reopen") {
      permission_key = some "finding.manage_assigned";
      roles = role_consultant ∷ role_admin ∷ [];
      scope = asg ∷ auth_scope ∷ [];
      resource_context_required = true;
      assignment_required = true;
      auth_scope_required = true;
      workflow_validation_required = true;
      audit_required = true;
    }
    ∷ []

abbrev pub int_operations_1 : List ApiOperationAuthorization
int_operations_1 =
    record (operation "API-INT-001" "GET" "/internships") {
      permission_key = some "internship.program.read";
      scope = public ∷ [];
      requires_auth = false;
      classification = public_route;
    }
    ∷ record (operation "API-INT-002" "GET" "/internships/{internshipId}") {
      permission_key = some "internship.program.read";
      scope = public ∷ [];
      requires_auth = false;
      classification = public_route;
      resource_context_required = true;
    }
    ∷ record (operation "API-INT-003" "POST" "/admin/internships") {
      permission_key = some "internship.program.manage";
      roles = role_admin ∷ [];
      audit_required = true;
    }
    ∷ record (operation "API-INT-004" "PATCH" "/admin/internships/{internshipId}") {
      permission_key = some "internship.program.manage";
      roles = role_admin ∷ [];
      resource_context_required = true;
      workflow_validation_required = true;
      audit_required = true;
    }
    ∷ record (operation "API-INT-005" "POST" "/admin/internships/{internshipId}/publish") {
      permission_key = some "internship.program.manage";
      roles = role_admin ∷ [];
      resource_context_required = true;
      workflow_validation_required = true;
      audit_required = true;
    }
    ∷ record (operation "API-INT-006" "POST" "/admin/internships/{internshipId}/close") {
      permission_key = some "internship.program.manage";
      roles = role_admin ∷ [];
      resource_context_required = true;
      workflow_validation_required = true;
      audit_required = true;
    }
    ∷ []

abbrev pub int_operations_2 : List ApiOperationAuthorization
int_operations_2 =
    record (operation "API-INT-007" "POST" "/admin/internships/{internshipId}/archive") {
      permission_key = some "internship.program.manage";
      roles = role_admin ∷ [];
      resource_context_required = true;
      workflow_validation_required = true;
      audit_required = true;
    }
    ∷ record (operation "API-INT-008" "POST" "/admin/internships/{internshipId}/return-to-draft") {
      permission_key = some "internship.program.manage";
      roles = role_admin ∷ [];
      resource_context_required = true;
      workflow_validation_required = true;
      audit_required = true;
    }
    ∷ record (operation "API-INT-009" "GET" "/admin/internships") {
      permission_key = some "internship.program.manage";
      roles = role_admin ∷ [];
    }
    ∷ record (operation "API-INT-010" "GET" "/admin/internships/{internshipId}") {
      permission_key = some "internship.program.manage";
      roles = role_admin ∷ [];
      resource_context_required = true;
    }
    ∷ []

abbrev pub mod_operations_1 : List ApiOperationAuthorization
mod_operations_1 =
    record (operation "API-MOD-001" "GET" "/admin/career-listings") {
      permission_key = some "career.manage_moderate";
      roles = role_admin ∷ [];
    }
    ∷ record (operation "API-MOD-002" "GET" "/admin/opportunities") {
      permission_key = some "employer.portal.moderate";
      roles = role_admin ∷ [];
    }
    ∷ record (operation "API-MOD-CAR-01" "POST" "/admin/career-listings/{id}/start-review") {
      permission_key = some "career.manage_moderate";
      roles = role_admin ∷ [];
      resource_context_required = true;
      workflow_validation_required = true;
      audit_required = true;
    }
    ∷ record (operation "API-MOD-CAR-02" "POST" "/admin/career-listings/{id}/publish") {
      permission_key = some "career.manage_moderate";
      roles = role_admin ∷ [];
      resource_context_required = true;
      workflow_validation_required = true;
      audit_required = true;
    }
    ∷ record (operation "API-MOD-CAR-03" "POST" "/admin/career-listings/{id}/reject") {
      permission_key = some "career.manage_moderate";
      roles = role_admin ∷ [];
      resource_context_required = true;
      workflow_validation_required = true;
      audit_required = true;
    }
    ∷ record (operation "API-MOD-CAR-04" "POST" "/admin/career-listings/{id}/close") {
      permission_key = some "career.manage_moderate";
      roles = role_admin ∷ [];
      resource_context_required = true;
      workflow_validation_required = true;
      audit_required = true;
    }
    ∷ []

abbrev pub mod_operations_2 : List ApiOperationAuthorization
mod_operations_2 =
    record (operation "API-MOD-OPP-01" "POST" "/admin/opportunities/{id}/start-review") {
      permission_key = some "employer.portal.moderate";
      roles = role_admin ∷ [];
      resource_context_required = true;
      workflow_validation_required = true;
      audit_required = true;
    }
    ∷ record (operation "API-MOD-OPP-02" "POST" "/admin/opportunities/{id}/publish") {
      permission_key = some "employer.portal.moderate";
      roles = role_admin ∷ [];
      resource_context_required = true;
      workflow_validation_required = true;
      audit_required = true;
    }
    ∷ record (operation "API-MOD-OPP-03" "POST" "/admin/opportunities/{id}/reject") {
      permission_key = some "employer.portal.moderate";
      roles = role_admin ∷ [];
      resource_context_required = true;
      workflow_validation_required = true;
      audit_required = true;
    }
    ∷ record (operation "API-MOD-OPP-04" "POST" "/admin/opportunities/{id}/close") {
      permission_key = some "employer.portal.moderate";
      roles = role_admin ∷ [];
      resource_context_required = true;
      workflow_validation_required = true;
      audit_required = true;
    }
    ∷ []

abbrev pub programmes_area : List ApiOperationAuthorization
programmes_area =
    fnd_operations_1 ++ fnd_operations_2 ++ int_operations_1 ++ int_operations_2 ++ mod_operations_1
    ++ mod_operations_2
