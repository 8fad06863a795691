-- ===== src/Authorization/Operations/Scores.antt =====
-- Rows of API_AUTHORIZATION_MAP (src/core/security/authorization/api-authorization-map.ts).
use cyber_hub_api.Prelude.{true, false, none, some, List, [], ◌∷◌, ◌++◌}
use cyber_hub_api.Authorization.Types.{
  role_learner, role_business, role_consultant, role_admin, own, org, asg, auth_scope, public_route,
}
use cyber_hub_api.Authorization.Operations.Row.{ApiOperationAuthorization, operation}

abbrev pub scr_operations : List ApiOperationAuthorization
scr_operations =
    record (operation "API-SCR-001" "POST"
      "/assessments/{assessmentId}/security-scores/calculate") {
        permission_key = some "security_score.calculate_assigned";
        roles = role_consultant ∷ role_admin ∷ [];
        scope = asg ∷ auth_scope ∷ [];
        resource_context_required = true;
        assignment_required = true;
        auth_scope_required = true;
        audit_required = true;
      }
    ∷ record (operation "API-SCR-002" "GET" "/assessments/{assessmentId}/security-scores") {
      permission_key = some "security_score.calculate_assigned";
      roles = role_consultant ∷ role_admin ∷ [];
      scope = asg ∷ [];
      resource_context_required = true;
      assignment_required = true;
    }
    ∷ record (operation "API-SCR-003" "GET" "/business/security/dashboard") {
      permission_key = some "security_score.read_client";
      roles = role_business ∷ [];
      scope = org ∷ [];
      additional_permission_keys =
          some
            ("security_score.read_client" ∷ "assessment.read_client" ∷ "finding.read_client" ∷ []);
    }
    ∷ record (operation "API-SCR-004" "GET" "/business/security/findings") {
      permission_key = some "finding.read_client";
      roles = role_business ∷ [];
      scope = org ∷ [];
    }
    ∷ record (operation "API-SCR-005" "GET" "/business/security/scores") {
      permission_key = some "security_score.read_client";
      roles = role_business ∷ [];
      scope = org ∷ [];
    }
    ∷ []

abbrev pub sub_operations : List ApiOperationAuthorization
sub_operations =
    record (operation "API-SUB-001" "POST" "/me/task-assignments/{assignmentId}/submission") {
      permission_key = some "submission.create_update_own";
      roles = role_learner ∷ [];
      scope = own ∷ [];
      resource_context_required = true;
      workflow_validation_required = true;
      audit_required = true;
    }
    ∷ record (operation "API-SUB-002" "GET" "/me/submissions/{submissionId}") {
      permission_key = some "submission.create_update_own";
      roles = role_learner ∷ [];
      scope = own ∷ [];
      resource_context_required = true;
    }
    ∷ record (operation "API-SUB-003" "POST" "/me/submissions/{submissionId}/resubmit") {
      permission_key = some "submission.create_update_own";
      roles = role_learner ∷ [];
      scope = own ∷ [];
      resource_context_required = true;
      workflow_validation_required = true;
      audit_required = true;
    }
    ∷ []

abbrev pub sys_operations : List ApiOperationAuthorization
sys_operations =
    record (operation "API-SYS-001" "GET" "/health/live") {
      permission_key = none;
      requires_auth = false;
      classification = public_route;
    }
    ∷ record (operation "API-SYS-002" "GET" "/health/ready") {
      permission_key = none;
      requires_auth = false;
      classification = public_route;
    }
    ∷ []

abbrev pub tsk_operations : List ApiOperationAuthorization
tsk_operations =
    record (operation "API-TSK-001" "POST" "/admin/internships/{internshipId}/tasks") {
      permission_key = some "internship.task.manage_assign";
      roles = role_admin ∷ [];
      resource_context_required = true;
      audit_required = true;
    }
    ∷ record (operation "API-TSK-002" "GET" "/admin/internships/{internshipId}/tasks") {
      permission_key = some "internship.task.manage_assign";
      roles = role_admin ∷ [];
      resource_context_required = true;
    }
    ∷ record (operation "API-TSK-003" "PATCH" "/admin/tasks/{taskId}") {
      permission_key = some "internship.task.manage_assign";
      roles = role_admin ∷ [];
      resource_context_required = true;
      audit_required = true;
    }
    ∷ record (operation "API-TSK-004" "DELETE" "/admin/tasks/{taskId}") {
      permission_key = some "internship.task.manage_assign";
      roles = role_admin ∷ [];
      resource_context_required = true;
      audit_required = true;
    }
    ∷ []

abbrev pub admres_operations_1 : List ApiOperationAuthorization
admres_operations_1 =
    record (operation "API-ADMRES-001" "POST" "/admin/resources") {
      permission_key = some "resource.manage";
      roles = role_admin ∷ [];
      workflow_validation_required = true;
      audit_required = true;
    }
    ∷ record (operation "API-ADMRES-002" "PATCH" "/admin/resources/{resourceId}") {
      permission_key = some "resource.manage";
      roles = role_admin ∷ [];
      resource_context_required = true;
      workflow_validation_required = true;
      audit_required = true;
    }
    ∷ record (operation "API-ADMRES-003" "POST" "/admin/resources/{resourceId}/publish") {
      permission_key = some "resource.manage";
      roles = role_admin ∷ [];
      resource_context_required = true;
      workflow_validation_required = true;
      audit_required = true;
    }
    ∷ record (operation "API-ADMRES-004" "POST" "/admin/resources/{resourceId}/archive") {
      permission_key = some "resource.manage";
      roles = role_admin ∷ [];
      resource_context_required = true;
      workflow_validation_required = true;
      audit_required = true;
    }
    ∷ record (operation "API-ADMRES-005" "DELETE" "/admin/resources/{resourceId}") {
      permission_key = some "resource.manage";
      roles = role_admin ∷ [];
      resource_context_required = true;
      workflow_validation_required = true;
      audit_required = true;
    }
    ∷ record (operation "API-ADMRES-006" "GET" "/admin/resources") {
      permission_key = some "resource.manage";
      roles = role_admin ∷ [];
    }
    ∷ []

abbrev pub admres_operations_2 : List ApiOperationAuthorization
admres_operations_2 =
    record (operation "API-ADMRES-007" "GET" "/admin/resources/{resourceId}") {
      permission_key = some "resource.manage";
      roles = role_admin ∷ [];
      resource_context_required = true;
    }
    ∷ []

abbrev pub admcrs_operations_1 : List ApiOperationAuthorization
admcrs_operations_1 =
    record (operation "API-ADMCRS-001" "POST" "/admin/courses") {
      permission_key = some "course.manage_approve";
      roles = role_admin ∷ [];
      audit_required = true;
    }
    ∷ record (operation "API-ADMCRS-002" "PATCH" "/admin/courses/{courseId}") {
      permission_key = some "course.manage_approve";
      roles = role_admin ∷ [];
      resource_context_required = true;
      workflow_validation_required = true;
      audit_required = true;
    }
    ∷ record (operation "API-ADMCRS-003" "POST" "/admin/courses/{courseId}/approve") {
      permission_key = some "course.manage_approve";
      roles = role_admin ∷ [];
      resource_context_required = true;
      workflow_validation_required = true;
      audit_required = true;
    }
    ∷ record (operation "API-ADMCRS-004" "POST" "/admin/courses/{courseId}/reject") {
      permission_key = some "course.manage_approve";
      roles = role_admin ∷ [];
      resource_context_required = true;
      workflow_validation_required = true;
      audit_required = true;
    }
    ∷ record (operation "API-ADMCRS-005" "DELETE" "/admin/courses/{courseId}") {
      permission_key = some "course.manage_approve";
      roles = role_admin ∷ [];
      resource_context_required = true;
      workflow_validation_required = true;
      audit_required = true;
    }
    ∷ record (operation "API-ADMCRS-006" "GET" "/admin/courses") {
      permission_key = some "course.manage_approve";
      roles = role_admin ∷ [];
    }
    ∷ []

abbrev pub admcrs_operations_2 : List ApiOperationAuthorization
admcrs_operations_2 =
    record (operation "API-ADMCRS-007" "GET" "/admin/courses/{courseId}") {
      permission_key = some "course.manage_approve";
      roles = role_admin ∷ [];
      resource_context_required = true;
    }
    ∷ []

abbrev pub scores_area : List ApiOperationAuthorization
scores_area =
    scr_operations ++ sub_operations ++ sys_operations ++ tsk_operations ++ admres_operations_1
    ++ admres_operations_2 ++ admcrs_operations_1 ++ admcrs_operations_2
