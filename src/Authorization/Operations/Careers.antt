-- ===== src/Authorization/Operations/Careers.antt =====
-- Rows of API_AUTHORIZATION_MAP (src/core/security/authorization/api-authorization-map.ts).
use cyber_hub_api.Prelude.{true, false, some, List, [], ◌∷◌, ◌++◌}
use cyber_hub_api.Authorization.Types.{
  role_learner, role_business, role_mentor, role_admin, own, org, asg, public, public_route,
}
use cyber_hub_api.Authorization.Operations.Row.{ApiOperationAuthorization, operation}

abbrev pub bizcar_operations : List ApiOperationAuthorization
bizcar_operations =
    record (operation "API-BIZCAR-001" "POST" "/business/career-listings") {
      permission_key = some "career.submit_own";
      roles = role_business ∷ [];
      scope = org ∷ [];
      workflow_validation_required = true;
      audit_required = true;
    }
    ∷ record (operation "API-BIZCAR-002" "GET" "/business/career-listings") {
      permission_key = some "career.submit_own";
      roles = role_business ∷ [];
      scope = org ∷ [];
    }
    ∷ record (operation "API-BIZCAR-003" "GET" "/business/career-listings/{listingId}") {
      permission_key = some "career.submit_own";
      roles = role_business ∷ [];
      scope = org ∷ [];
      resource_context_required = true;
    }
    ∷ record (operation "API-BIZCAR-004" "PATCH" "/business/career-listings/{listingId}") {
      permission_key = some "career.submit_own";
      roles = role_business ∷ [];
      scope = org ∷ [];
      resource_context_required = true;
      workflow_validation_required = true;
    }
    ∷ record (operation "API-BIZCAR-005" "POST" "/business/career-listings/{listingId}/resubmit") {
      permission_key = some "career.submit_own";
      roles = role_business ∷ [];
      scope = org ∷ [];
      resource_context_required = true;
      workflow_validation_required = true;
      audit_required = true;
    }
    ∷ record (operation "API-BIZCAR-006" "POST" "/business/career-listings/{listingId}/close") {
      permission_key = some "career.submit_own";
      roles = role_business ∷ [];
      scope = org ∷ [];
      resource_context_required = true;
      workflow_validation_required = true;
      audit_required = true;
    }
    ∷ []

abbrev pub bizopp_operations : List ApiOperationAuthorization
bizopp_operations =
    record (operation "API-BIZOPP-001" "POST" "/business/opportunities") {
      permission_key = some "employer.opportunity.submit_own";
      roles = role_business ∷ [];
      scope = org ∷ [];
      workflow_validation_required = true;
      audit_required = true;
    }
    ∷ record (operation "API-BIZOPP-002" "GET" "/business/opportunities") {
      permission_key = some "employer.opportunity.submit_own";
      roles = role_business ∷ [];
      scope = org ∷ [];
    }
    ∷ record (operation "API-BIZOPP-003" "GET" "/business/opportunities/{opportunityId}") {
      permission_key = some "employer.opportunity.submit_own";
      roles = role_business ∷ [];
      scope = org ∷ [];
      resource_context_required = true;
    }
    ∷ record (operation "API-BIZOPP-004" "PATCH" "/business/opportunities/{opportunityId}") {
      permission_key = some "employer.opportunity.submit_own";
      roles = role_business ∷ [];
      scope = org ∷ [];
      resource_context_required = true;
      workflow_validation_required = true;
    }
    ∷ record (operation "API-BIZOPP-005" "POST"
        "/business/opportunities/{opportunityId}/resubmit") {
          permission_key = some "employer.opportunity.submit_own";
          roles = role_business ∷ [];
          scope = org ∷ [];
          resource_context_required = true;
          workflow_validation_required = true;
          audit_required = true;
        }
    ∷ record (operation "API-BIZOPP-006" "POST" "/business/opportunities/{opportunityId}/close") {
      permission_key = some "employer.opportunity.submit_own";
      roles = role_business ∷ [];
      scope = org ∷ [];
      resource_context_required = true;
      workflow_validation_required = true;
      audit_required = true;
    }
    ∷ []

abbrev pub car_operations : List ApiOperationAuthorization
car_operations =
    record (operation "API-CAR-001" "GET" "/career-listings") {
      permission_key = some "career.read";
      scope = public ∷ [];
      requires_auth = false;
    }
    ∷ record (operation "API-CAR-002" "GET" "/career-listings/{listingId}") {
      permission_key = some "career.read";
      scope = public ∷ [];
      requires_auth = false;
      resource_context_required = true;
    }
    ∷ record (operation "API-CAR-003" "GET" "/career-listings/{listingId}/outbound") {
      permission_key = some "career.read";
      scope = public ∷ [];
      requires_auth = false;
      resource_context_required = true;
    }
    ∷ []

abbrev pub cer_operations : List ApiOperationAuthorization
cer_operations =
    record (operation "API-CER-001" "GET" "/certificates/verify/{verificationPath}") {
      permission_key = some "certificate.verify_public";
      scope = public ∷ [];
      requires_auth = false;
      classification = public_route;
      resource_context_required = true;
    }
    ∷ record (operation "API-CER-002" "POST"
        "/admin/internship-enrollments/{enrollmentId}/certificate") {
          permission_key = some "certificate.issue_manage";
          roles = role_admin ∷ [];
          resource_context_required = true;
          workflow_validation_required = true;
          audit_required = true;
        }
    ∷ record (operation "API-CER-003" "GET" "/me/certificates") {
      permission_key = some "certificate.read_own";
      roles = role_learner ∷ [];
      scope = own ∷ [];
    }
    ∷ record (operation "API-CER-004" "GET" "/me/certificates/{certificateId}") {
      permission_key = some "certificate.read_own";
      roles = role_learner ∷ [];
      scope = own ∷ [];
      resource_context_required = true;
    }
    ∷ record (operation "API-CER-005" "GET" "/me/certificates/{certificateId}/download") {
      permission_key = some "certificate.read_own";
      roles = role_learner ∷ [];
      scope = own ∷ [];
      resource_context_required = true;
    }
    ∷ record (operation "API-CER-006" "POST" "/admin/certificates/{certificateId}/revoke") {
      permission_key = some "certificate.revoke";
      roles = role_admin ∷ [];
      resource_context_required = true;
      workflow_validation_required = true;
      audit_required = true;
    }
    ∷ []

abbrev pub comp_operations : List ApiOperationAuthorization
comp_operations =
    record (operation "API-COMP-001" "GET"
      "/review/internship-enrollments/{enrollmentId}/completion") {
        permission_key = some "completion.review_assigned";
        roles = role_mentor ∷ role_admin ∷ [];
        scope = asg ∷ [];
        resource_context_required = true;
        assignment_required = true;
      }
    ∷ record (operation "API-COMP-002" "POST"
        "/review/internship-enrollments/{enrollmentId}/evaluate-completion") {
          permission_key = some "completion.review_assigned";
          roles = role_mentor ∷ role_admin ∷ [];
          scope = asg ∷ [];
          resource_context_required = true;
          assignment_required = true;
          audit_required = true;
        }
    ∷ []

abbrev pub careers_area : List ApiOperationAuthorization
careers_area =
    bizcar_operations ++ bizopp_operations ++ car_operations ++ cer_operations ++ comp_operations
