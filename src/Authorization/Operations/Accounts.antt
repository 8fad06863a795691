-- ===== src/Authorization/Operations/Accounts.antt =====
-- Rows of API_AUTHORIZATION_MAP (src/core/security/authorization/api-authorization-map.ts).
use cyber_hub_api.Prelude.{true, false, none, some, List, [], ◌∷◌, ◌++◌}
use cyber_hub_api.Authorization.Types.{
  role_learner, role_business, role_consultant, role_admin, own, org, asg, cond, auth_scope,
  public_route, authenticated_only,
}
use cyber_hub_api.Authorization.Operations.Row.{ApiOperationAuthorization, operation}

abbrev pub acc_operations : List ApiOperationAuthorization
acc_operations =
    record (operation "API-ACC-001" "GET" "/me") {
      permission_key = some "account.profile.read_update_own";
      scope = own ∷ [];
    }
    ∷ record (operation "API-ACC-002" "PATCH" "/me/profile") {
      permission_key = some "account.profile.read_update_own";
      scope = own ∷ [];
    }
    ∷ record (operation "API-ACC-003" "GET" "/me/business") {
      permission_key = some "account.profile.read_update_own";
      roles = role_business ∷ [];
      scope = org ∷ [];
    }
    ∷ record (operation "API-ACC-004" "PATCH" "/me/business") {
      permission_key = some "account.profile.read_update_own";
      roles = role_business ∷ [];
      scope = org ∷ [];
    }
    ∷ record (operation "API-ACC-005" "POST" "/me/account-deletion-request") {
      permission_key = some "account.delete.request_own";
      scope = own ∷ cond ∷ [];
      audit_required = true;
    }
    ∷ []

abbrev pub adm_operations_1 : List ApiOperationAuthorization
adm_operations_1 =
    record (operation "API-ADM-001" "GET" "/admin/users") {
      permission_key = some "account.role.assign_privileged";
      roles = role_admin ∷ [];
    }
    ∷ record (operation "API-ADM-002" "GET" "/admin/users/{userId}") {
      permission_key = some "account.role.assign_privileged";
      roles = role_admin ∷ [];
      resource_context_required = true;
    }
    ∷ record (operation "API-ADM-003" "PATCH" "/admin/users/{userId}/role") {
      permission_key = some "account.role.assign_privileged";
      roles = role_admin ∷ [];
      resource_context_required = true;
      audit_required = true;
    }
    ∷ record (operation "API-ADM-004" "GET" "/admin/employers") {
      permission_key = some "account.role.assign_privileged";
      roles = role_admin ∷ [];
    }
    ∷ record (operation "API-ADM-005" "GET" "/admin/employers/{employerId}") {
      permission_key = some "account.role.assign_privileged";
      roles = role_admin ∷ [];
      resource_context_required = true;
    }
    ∷ record (operation "API-ADM-006" "PATCH" "/admin/employers/{employerId}/profile") {
      permission_key = some "account.role.assign_privileged";
      roles = role_admin ∷ [];
      resource_context_required = true;
      audit_required = true;
    }
    ∷ []

abbrev pub adm_operations_2 : List ApiOperationAuthorization
adm_operations_2 =
    record (operation "API-ADM-007" "PATCH" "/admin/employers/{employerId}/status") {
      permission_key = some "account.role.assign_privileged";
      roles = role_admin ∷ [];
      resource_context_required = true;
      audit_required = true;
    }
    ∷ record (operation "API-ADM-008" "GET" "/admin/analytics") {
      permission_key = some "analytics.read";
      roles = role_admin ∷ [];
    }
    ∷ []

abbrev pub app_operations_1 : List ApiOperationAuthorization
app_operations_1 =
    record (operation "API-APP-001" "POST" "/internships/{internshipId}/applications") {
      permission_key = some "internship.application.create_own";
      roles = role_learner ∷ [];
      scope = own ∷ [];
      resource_context_required = true;
      workflow_validation_required = true;
      audit_required = true;
    }
    ∷ record (operation "API-APP-002" "GET" "/me/internship-applications") {
      permission_key = some "internship.application.read_own";
      roles = role_learner ∷ [];
      scope = own ∷ [];
    }
    ∷ record (operation "API-APP-003" "GET" "/me/internship-applications/{applicationId}") {
      permission_key = some "internship.application.read_own";
      roles = role_learner ∷ [];
      scope = own ∷ [];
      resource_context_required = true;
    }
    ∷ record (operation "API-APP-004" "GET" "/admin/internship-applications") {
      permission_key = some "internship.application.review";
      roles = role_admin ∷ [];
    }
    ∷ record (operation "API-APP-005" "GET" "/admin/internship-applications/{applicationId}") {
      permission_key = some "internship.application.review";
      roles = role_admin ∷ [];
      resource_context_required = true;
    }
    ∷ record (operation "API-APP-006" "POST"
        "/admin/internship-applications/{applicationId}/start-review") {
          permission_key = some "internship.application.review";
          roles = role_admin ∷ [];
          resource_context_required = true;
          workflow_validation_required = true;
          audit_required = true;
        }
    ∷ []

abbrev pub app_operations_2 : List ApiOperationAuthorization
app_operations_2 =
    record (operation "API-APP-007" "POST"
      "/admin/internship-applications/{applicationId}/accept") {
        permission_key = some "internship.application.review";
        roles = role_admin ∷ [];
        resource_context_required = true;
        workflow_validation_required = true;
        audit_required = true;
      }
    ∷ record (operation "API-APP-008" "POST"
        "/admin/internship-applications/{applicationId}/reject") {
          permission_key = some "internship.application.review";
          roles = role_admin ∷ [];
          resource_context_required = true;
          workflow_validation_required = true;
          audit_required = true;
        }
    ∷ []

abbrev pub asm_operations_1 : List ApiOperationAuthorization
asm_operations_1 =
    record (operation "API-ASM-001" "POST" "/consulting/requests/{requestId}/assessments") {
      permission_key = some "assessment.manage_assigned";
      roles = role_consultant ∷ role_admin ∷ [];
      scope = asg ∷ auth_scope ∷ [];
      resource_context_required = true;
      assignment_required = true;
      auth_scope_required = true;
      workflow_validation_required = true;
      audit_required = true;
    }
    ∷ record (operation "API-ASM-002" "GET" "/assessments") {
      permission_key = some "assessment.manage_assigned";
      roles = role_consultant ∷ role_admin ∷ [];
      scope = asg ∷ [];
      assignment_required = true;
    }
    ∷ record (operation "API-ASM-003" "GET" "/assessments/{assessmentId}") {
      permission_key = some "assessment.manage_assigned";
      roles = role_consultant ∷ role_admin ∷ [];
      scope = asg ∷ [];
      resource_context_required = true;
      assignment_required = true;
    }
    ∷ record (operation "API-ASM-004" "POST" "/assessments/{assessmentId}/start") {
      permission_key = some "assessment.manage_assigned";
      roles = role_consultant ∷ role_admin ∷ [];
      scope = asg ∷ auth_scope ∷ [];
      resource_context_required = true;
      assignment_required = true;
      auth_scope_required = true;
      workflow_validation_required = true;
      audit_required = true;
    }
    ∷ record (operation "API-ASM-005" "POST" "/assessments/{assessmentId}/complete") {
      permission_key = some "assessment.manage_assigned";
      roles = role_consultant ∷ role_admin ∷ [];
      scope = asg ∷ auth_scope ∷ [];
      resource_context_required = true;
      assignment_required = true;
      auth_scope_required = true;
      workflow_validation_required = true;
      audit_required = true;
    }
    ∷ record (operation "API-ASM-006" "POST" "/admin/assessments/{assessmentId}/cancel") {
      permission_key = some "assessment.manage_assigned";
      roles = role_admin ∷ [];
      resource_context_required = true;
      workflow_validation_required = true;
      audit_required = true;
    }
    ∷ []

abbrev pub asm_operations_2 : List ApiOperationAuthorization
asm_operations_2 =
    record (operation "API-ASM-007" "GET" "/business/security/assessments") {
      permission_key = some "assessment.read_client";
      roles = role_business ∷ [];
      scope = org ∷ [];
    }
    ∷ record (operation "API-ASM-008" "GET" "/business/security/assessments/{assessmentId}") {
      permission_key = some "assessment.read_client";
      roles = role_business ∷ [];
      scope = org ∷ [];
      resource_context_required = true;
    }
    ∷ []

abbrev pub aud_operations : List ApiOperationAuthorization
aud_operations =
    record (operation "API-AUD-001" "GET" "/admin/audit-logs") {
      permission_key = some "audit.read";
      roles = role_admin ∷ [];
    }
    ∷ record (operation "API-AUD-002" "GET" "/admin/audit-logs/{auditLogId}") {
      permission_key = some "audit.read";
      roles = role_admin ∷ [];
      resource_context_required = true;
    }
    ∷ []

abbrev pub auth_operations_1 : List ApiOperationAuthorization
auth_operations_1 =
    record (operation "API-AUTH-001" "GET" "/auth/csrf-token") {
      permission_key = none;
      requires_auth = false;
      classification = public_route;
    }
    ∷ record (operation "API-AUTH-002" "POST" "/auth/register/learner") {
      permission_key = some "auth.learner.register";
      requires_auth = false;
    }
    ∷ record (operation "API-AUTH-003" "POST" "/auth/register/business") {
      permission_key = some "auth.business.register";
      requires_auth = false;
    }
    ∷ record (operation "API-AUTH-004" "POST" "/auth/email-verification/request") {
      permission_key = none;
      requires_auth = false;
      classification = public_route;
    }
    ∷ record (operation "API-AUTH-005" "POST" "/auth/email-verification/confirm") {
      permission_key = none;
      requires_auth = false;
      classification = public_route;
    }
    ∷ record (operation "API-AUTH-006" "POST" "/auth/sessions") {
      permission_key = none;
      requires_auth = false;
      classification = public_route;
    }
    ∷ []

abbrev pub auth_operations_2 : List ApiOperationAuthorization
auth_operations_2 =
    record (operation "API-AUTH-007" "GET" "/auth/session") {
      permission_key = none;
      scope = own ∷ [];
      classification = authenticated_only;
    }
    ∷ record (operation "API-AUTH-008" "DELETE" "/auth/session") {
      permission_key = none;
      scope = own ∷ [];
      classification = authenticated_only;
    }
    ∷ record (operation "API-AUTH-009" "POST" "/auth/password-reset/request") {
      permission_key = none;
      requires_auth = false;
      classification = public_route;
    }
    ∷ record (operation "API-AUTH-010" "POST" "/auth/password-reset/confirm") {
      permission_key = none;
      requires_auth = false;
      classification = public_route;
    }
    ∷ []

abbrev pub accounts_area : List ApiOperationAuthorization
accounts_area =
    acc_operations ++ adm_operations_1 ++ adm_operations_2 ++ app_operations_1 ++ app_operations_2
    ++ asm_operations_1 ++ asm_operations_2 ++ aud_operations ++ auth_operations_1
    ++ auth_operations_2
