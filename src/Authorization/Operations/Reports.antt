-- ===== src/Authorization/Operations/Reports.antt =====
-- Rows of API_AUTHORIZATION_MAP (src/core/security/authorization/api-authorization-map.ts).
use cyber_hub_api.Prelude.{true, false, some, List, [], ◌∷◌, ◌++◌}
use cyber_hub_api.Authorization.Types.{
  role_learner, role_business, role_mentor, role_consultant, role_admin, own, org, asg, public,
}
use cyber_hub_api.Authorization.Operations.Row.{ApiOperationAuthorization, operation}

abbrev pub res_operations_1 : List ApiOperationAuthorization
res_operations_1 =
    record (operation "API-RES-001" "GET" "/resources") {
      permission_key = some "resource.read";
      scope = public ∷ [];
      requires_auth = false;
    }
    ∷ record (operation "API-RES-002" "GET" "/resources/{resourceId}") {
      permission_key = some "resource.read";
      scope = public ∷ [];
      requires_auth = false;
      resource_context_required = true;
    }
    ∷ record (operation "API-RES-003" "GET" "/me/resource-bookmarks") {
      permission_key = some "resource.bookmark.manage_own";
      roles = role_learner ∷ [];
      scope = own ∷ [];
    }
    ∷ record (operation "API-RES-004" "PUT" "/me/resource-bookmarks/{resourceId}") {
      permission_key = some "resource.bookmark.manage_own";
      roles = role_learner ∷ [];
      scope = own ∷ [];
      resource_context_required = true;
    }
    ∷ record (operation "API-RES-005" "DELETE" "/me/resource-bookmarks/{resourceId}") {
      permission_key = some "resource.bookmark.manage_own";
      roles = role_learner ∷ [];
      scope = own ∷ [];
      resource_context_required = true;
    }
    ∷ record (operation "API-RES-006" "GET" "/me/resource-progress/{resourceId}") {
      permission_key = some "resource.progress.manage_own";
      roles = role_learner ∷ [];
      scope = own ∷ [];
      resource_context_required = true;
    }
    ∷ []

abbrev pub res_operations_2 : List ApiOperationAuthorization
res_operations_2 =
    record (operation "API-RES-007" "PUT" "/me/resource-progress/{resourceId}") {
      permission_key = some "resource.progress.manage_own";
      roles = role_learner ∷ [];
      scope = own ∷ [];
      resource_context_required = true;
    }
    ∷ []

abbrev pub rev_operations : List ApiOperationAuthorization
rev_operations =
    record (operation "API-REV-001" "GET" "/review/submissions") {
      permission_key = some "submission.review_assigned";
      roles = role_mentor ∷ role_admin ∷ [];
      scope = asg ∷ [];
      assignment_required = true;
    }
    ∷ record (operation "API-REV-002" "GET" "/review/submissions/{submissionId}") {
      permission_key = some "submission.review_assigned";
      roles = role_mentor ∷ role_admin ∷ [];
      scope = asg ∷ [];
      resource_context_required = true;
      assignment_required = true;
    }
    ∷ record (operation "API-REV-003" "POST" "/review/submissions/{submissionId}/start-review") {
      permission_key = some "submission.review_assigned";
      roles = role_mentor ∷ role_admin ∷ [];
      scope = asg ∷ [];
      resource_context_required = true;
      assignment_required = true;
      workflow_validation_required = true;
      audit_required = true;
    }
    ∷ record (operation "API-REV-004" "POST" "/review/submissions/{submissionId}/approve") {
      permission_key = some "submission.review_assigned";
      roles = role_mentor ∷ role_admin ∷ [];
      scope = asg ∷ [];
      additional_permission_keys =
          some ("submission.review_assigned" ∷ "completion.review_assigned" ∷ []);
      resource_context_required = true;
      assignment_required = true;
      workflow_validation_required = true;
      audit_required = true;
    }
    ∷ record (operation "API-REV-005" "POST"
        "/review/submissions/{submissionId}/request-revision") {
          permission_key = some "submission.review_assigned";
          roles = role_mentor ∷ role_admin ∷ [];
          scope = asg ∷ [];
          resource_context_required = true;
          assignment_required = true;
          workflow_validation_required = true;
          audit_required = true;
        }
    ∷ []

abbrev pub rpt_operations_1 : List ApiOperationAuthorization
rpt_operations_1 =
    record (operation "API-RPT-001" "POST" "/assessments/{assessmentId}/reports") {
      permission_key = some "report.prepare_review_assigned";
      roles = role_consultant ∷ role_admin ∷ [];
      scope = asg ∷ [];
      resource_context_required = true;
      assignment_required = true;
      workflow_validation_required = true;
      audit_required = true;
    }
    ∷ record (operation "API-RPT-002" "GET" "/reports/{reportId}") {
      permission_key = some "report.prepare_review_assigned";
      roles = role_consultant ∷ role_admin ∷ [];
      scope = asg ∷ [];
      resource_context_required = true;
      assignment_required = true;
      non_disclosure =
          some
            "pre-release report hidden from Business (existence-hiding to Business role); internal projection";
    }
    ∷ record (operation "API-RPT-003" "PATCH" "/reports/{reportId}") {
      permission_key = some "report.prepare_review_assigned";
      roles = role_consultant ∷ role_admin ∷ [];
      scope = asg ∷ [];
      resource_context_required = true;
      assignment_required = true;
      workflow_validation_required = true;
      audit_required = true;
    }
    ∷ record (operation "API-RPT-004" "PUT" "/reports/{reportId}/findings") {
      permission_key = some "report.prepare_review_assigned";
      roles = role_consultant ∷ role_admin ∷ [];
      scope = asg ∷ [];
      resource_context_required = true;
      assignment_required = true;
      workflow_validation_required = true;
    }
    ∷ record (operation "API-RPT-005" "POST" "/reports/{reportId}/submit-review") {
      permission_key = some "report.prepare_review_assigned";
      roles = role_consultant ∷ [];
      scope = asg ∷ [];
      resource_context_required = true;
      assignment_required = true;
      workflow_validation_required = true;
      audit_required = true;
    }
    ∷ record (operation "API-RPT-006" "POST" "/reports/{reportId}/return-to-draft") {
      permission_key = some "report.prepare_review_assigned";
      roles = role_consultant ∷ role_admin ∷ [];
      scope = asg ∷ [];
      additional_permission_keys =
          some ("report.prepare_review_assigned" ∷ "report.release_client" ∷ []);
      resource_context_required = true;
      assignment_required = true;
      workflow_validation_required = true;
      audit_required = true;
    }
    ∷ []

abbrev pub rpt_operations_2 : List ApiOperationAuthorization
rpt_operations_2 =
    record (operation "API-RPT-007" "POST" "/reports/{reportId}/mark-ready") {
      permission_key = some "report.prepare_review_assigned";
      roles = role_consultant ∷ [];
      scope = asg ∷ [];
      resource_context_required = true;
      assignment_required = true;
      workflow_validation_required = true;
      audit_required = true;
    }
    ∷ record (operation "API-RPT-008" "POST" "/admin/reports/{reportId}/release") {
      permission_key = some "report.release_client";
      roles = role_admin ∷ [];
      resource_context_required = true;
      workflow_validation_required = true;
      audit_required = true;
    }
    ∷ record (operation "API-RPT-009" "POST" "/admin/reports/{reportId}/supersede") {
      permission_key = some "report.release_client";
      roles = role_admin ∷ [];
      resource_context_required = true;
      workflow_validation_required = true;
      audit_required = true;
    }
    ∷ record (operation "API-RPT-010" "GET" "/business/security/reports") {
      permission_key = some "report.read_client";
      roles = role_business ∷ [];
      scope = org ∷ [];
      non_disclosure =
          some
            "returns only own ORG RELEASED/SUPERSEDED reports; pre-release (DRAFT/IN_REVIEW/READY_FOR_RELEASE) report existence/content is hidden via existence-hiding semantics (Sec.13, AC-013)";
    }
    ∷ record (operation "API-RPT-011" "GET" "/business/security/reports/{reportId}") {
      permission_key = some "report.read_client";
      roles = role_business ∷ [];
      scope = org ∷ [];
      resource_context_required = true;
      non_disclosure =
          some
            "returns only own ORG RELEASED/SUPERSEDED reports; pre-release report existence/content is hidden via existence-hiding semantics (Sec.13, AC-013)";
    }
    ∷ record (operation "API-RPT-012" "GET" "/business/security/reports/{reportId}/download") {
      permission_key = some "report.read_client";
      roles = role_business ∷ [];
      scope = org ∷ [];
      resource_context_required = true;
      non_disclosure =
          some
            "only released-state report artifacts are deliverable; pre-release existence/content hidden (Sec.13, AC-013)";
    }
    ∷ []

abbrev pub rpt_operations_3 : List ApiOperationAuthorization
rpt_operations_3 =
    record (operation "API-RPT-013" "GET" "/assessments/{assessmentId}/reports") {
      permission_key = some "report.prepare_review_assigned";
      roles = role_consultant ∷ role_admin ∷ [];
      scope = asg ∷ [];
      resource_context_required = true;
      assignment_required = true;
      non_disclosure =
          some
            "operational Consultant (dual ASG) / Admin discovery of one assessment's reports; never a Business capability, no draftContent (API Contract v1.3 D6-9, RBAC-DEC-013)";
    }
    ∷ []

abbrev pub reports_area : List ApiOperationAuthorization
reports_area =
    res_operations_1 ++ res_operations_2 ++ rev_operations ++ rpt_operations_1 ++ rpt_operations_2
    ++ rpt_operations_3
