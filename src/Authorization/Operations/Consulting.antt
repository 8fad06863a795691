-- ===== src/Authorization/Operations/Consulting.antt =====
-- Rows of API_AUTHORIZATION_MAP (src/core/security/authorization/api-authorization-map.ts).
use cyber_hub_api.Prelude.{true, false, none, some, List, [], ◌∷◌, ◌++◌}
use cyber_hub_api.Authorization.Types.{
  role_learner, role_business, role_consultant, role_admin, own, org, asg, public, auth_scope,
  public_route, caller_domain_permission,
}
use cyber_hub_api.Authorization.Operations.Row.{ApiOperationAuthorization, operation}

abbrev pub con_operations_1 : List ApiOperationAuthorization
con_operations_1 =
    record (operation "API-CON-001" "POST" "/business/consulting-requests") {
      permission_key = some "consulting.request.create_own";
      roles = role_business ∷ [];
      scope = org ∷ [];
      workflow_validation_required = true;
      audit_required = true;
    }
    ∷ record (operation "API-CON-002" "GET" "/business/consulting-requests") {
      permission_key = some "consulting.request.read_own";
      roles = role_business ∷ [];
      scope = org ∷ [];
    }
    ∷ record (operation "API-CON-003" "GET" "/business/consulting-requests/{requestId}") {
      permission_key = some "consulting.request.read_own";
      roles = role_business ∷ [];
      scope = org ∷ [];
      resource_context_required = true;
    }
    ∷ record (operation "API-CON-004" "POST"
        "/business/consulting-requests/{requestId}/scope-authorizations") {
          permission_key = some "consulting.scope.confirm_own";
          roles = role_business ∷ [];
          scope = org ∷ [];
          resource_context_required = true;
          audit_required = true;
        }
    ∷ record (operation "API-CON-005" "GET"
        "/business/consulting-requests/{requestId}/scope-authorizations/current") {
          permission_key = some "consulting.scope.confirm_own";
          roles = role_business ∷ [];
          scope = org ∷ [];
          resource_context_required = true;
        }
    ∷ record (operation "API-CON-006" "GET" "/consulting/requests") {
      permission_key = some "consulting.request.review_assigned";
      roles = role_consultant ∷ role_admin ∷ [];
      scope = asg ∷ [];
      assignment_required = true;
    }
    ∷ []

abbrev pub con_operations_2 : List ApiOperationAuthorization
con_operations_2 =
    record (operation "API-CON-007" "GET" "/consulting/requests/{requestId}") {
      permission_key = some "consulting.request.review_assigned";
      roles = role_consultant ∷ role_admin ∷ [];
      scope = asg ∷ [];
      resource_context_required = true;
      assignment_required = true;
    }
    ∷ record (operation "API-CON-008" "POST"
        "/admin/consulting-requests/{requestId}/assign-consultant") {
          permission_key = some "consulting.request.review_assigned";
          roles = role_admin ∷ [];
          resource_context_required = true;
          audit_required = true;
        }
    ∷ record (operation "API-CON-009" "POST" "/consulting/requests/{requestId}/start-review") {
      permission_key = some "consulting.request.review_assigned";
      roles = role_consultant ∷ role_admin ∷ [];
      scope = asg ∷ [];
      resource_context_required = true;
      assignment_required = true;
      workflow_validation_required = true;
      audit_required = true;
    }
    ∷ record (operation "API-CON-010" "POST" "/consulting/requests/{requestId}/accept") {
      permission_key = some "consulting.request.review_assigned";
      roles = role_consultant ∷ role_admin ∷ [];
      scope = asg ∷ [];
      resource_context_required = true;
      assignment_required = true;
      workflow_validation_required = true;
      audit_required = true;
    }
    ∷ record (operation "API-CON-011" "POST" "/consulting/requests/{requestId}/decline") {
      permission_key = some "consulting.request.review_assigned";
      roles = role_consultant ∷ role_admin ∷ [];
      scope = asg ∷ [];
      resource_context_required = true;
      assignment_required = true;
      workflow_validation_required = true;
      audit_required = true;
    }
    ∷ record (operation "API-CON-012" "POST" "/consulting/requests/{requestId}/start-delivery") {
      permission_key = some "consulting.request.review_assigned";
      roles = role_consultant ∷ role_admin ∷ [];
      scope = asg ∷ auth_scope ∷ [];
      resource_context_required = true;
      assignment_required = true;
      auth_scope_required = true;
      workflow_validation_required = true;
      audit_required = true;
    }
    ∷ []

abbrev pub con_operations_3 : List ApiOperationAuthorization
con_operations_3 =
    record (operation "API-CON-013" "POST" "/consulting/requests/{requestId}/complete") {
      permission_key = some "consulting.request.review_assigned";
      roles = role_consultant ∷ role_admin ∷ [];
      scope = asg ∷ [];
      resource_context_required = true;
      assignment_required = true;
      workflow_validation_required = true;
      audit_required = true;
    }
    ∷ record (operation "API-CON-014" "GET" "/consulting/requests/{requestId}/notes") {
      permission_key = some "consulting.internal_note.manage";
      roles = role_consultant ∷ role_admin ∷ [];
      scope = asg ∷ [];
      resource_context_required = true;
      assignment_required = true;
    }
    ∷ record (operation "API-CON-015" "POST" "/consulting/requests/{requestId}/notes") {
      permission_key = some "consulting.internal_note.manage";
      roles = role_consultant ∷ role_admin ∷ [];
      scope = asg ∷ [];
      resource_context_required = true;
      assignment_required = true;
      audit_required = true;
    }
    ∷ []

abbrev pub crs_operations : List ApiOperationAuthorization
crs_operations =
    record (operation "API-CRS-001" "GET" "/courses") {
      permission_key = some "course.read";
      scope = public ∷ [];
      requires_auth = false;
    }
    ∷ record (operation "API-CRS-002" "GET" "/courses/{courseId}") {
      permission_key = some "course.read";
      scope = public ∷ [];
      requires_auth = false;
      resource_context_required = true;
    }
    ∷ record (operation "API-CRS-003" "GET" "/courses/{courseId}/outbound") {
      permission_key = some "course.read";
      scope = public ∷ [];
      requires_auth = false;
      resource_context_required = true;
    }
    ∷ []

abbrev pub don_operations : List ApiOperationAuthorization
don_operations =
    record (operation "API-DON-001" "POST" "/donations/checkout") {
      permission_key = some "donation.create";
      requires_auth = false;
      classification = public_route;
      note =
          some
            "API Contract v1.1: 'Public or Session' + 'donation.create[No privilege; OWN if authenticated]'. RBAC v1.0 SS6 grants donation.create to Visitor (unauthenticated) as well as all 5 DB roles -- 'Donation is transactional, not privilege-bearing'. No session is ever mandatory; if one exists, the created donation is optionally associated OWN to that user, which is a data-association detail, not an access gate.";
    }
    ∷ record (operation "API-DON-002" "GET" "/donations/{donationId}/confirmation") {
      permission_key = some "donation.create";
      requires_auth = false;
      classification = public_route;
      resource_context_required = true;
      note =
          some
            "API Contract v1.1: 'Authenticated donor OWN or anonymous signed confirmation token' + 'donation.create[OWN / signed token]'. Two independent access paths are documented, neither of which is universally mandatory: an authenticated donor may read only their OWN donation, or any caller may read it by presenting the signed confirmation token issued at checkout. This matches the existing precedent in this codebase for token-authorized public routes (email-verification/confirm, password-reset/confirm are both @Public() despite requiring a secret token). Enforcing the OWN-or-token check is a future domain-service concern (Wave 0D-3+), not a PermissionGuard role check.";
    }
    ∷ record (operation "API-DON-003" "POST" "/webhooks/stripe") {
      permission_key = none;
      requires_auth = false;
      classification = public_route;
      audit_required = true;
      verification_mode = some "PROVIDER_SIGNATURE";
      note =
          some
            "API Contract v1.1: 'Provider signature; no browser session/CSRF' + 'Internal provider[Provider event]' (explicitly not a role/permission grant). SRS v2.0 FR-SYS-007 / NFR-SEC-011 and System Architecture v1.2 ARCH-DEC-010 mandate server-side Stripe webhook signature verification (STRIPE_WEBHOOK_SECRET). PUBLIC here means only 'no session/CSRF at the guard layer' -- Stripe's servers cannot hold a browser session -- not 'open to arbitrary unverified callers'. The mandatory cryptographic signature check happens inside the handler and is a materially different, non-RBAC verification mechanism from every other PUBLIC operation in this map; verificationMode records that distinction explicitly so it is never confused with an ordinary anonymous-open route.";
    }
    ∷ record (operation "API-DON-004" "GET" "/admin/donations") {
      permission_key = some "donation.reporting.read_manage";
      roles = role_admin ∷ [];
    }
    ∷ record (operation "API-DON-005" "GET" "/admin/donations/{donationId}") {
      permission_key = some "donation.reporting.read_manage";
      roles = role_admin ∷ [];
      resource_context_required = true;
    }
    ∷ []

abbrev pub emp_operations : List ApiOperationAuthorization
emp_operations =
    record (operation "API-EMP-001" "GET" "/opportunities") {
      permission_key = some "public.content.read";
      scope = public ∷ [];
      requires_auth = false;
    }
    ∷ record (operation "API-EMP-002" "GET" "/opportunities/{opportunityId}") {
      permission_key = some "public.content.read";
      scope = public ∷ [];
      requires_auth = false;
      resource_context_required = true;
    }
    ∷ []

abbrev pub enr_operations : List ApiOperationAuthorization
enr_operations =
    record (operation "API-ENR-001" "GET" "/me/internship-enrollments") {
      permission_key = some "internship.application.read_own";
      roles = role_learner ∷ [];
      scope = own ∷ [];
    }
    ∷ record (operation "API-ENR-002" "GET" "/me/internship-enrollments/{enrollmentId}") {
      permission_key = some "internship.application.read_own";
      roles = role_learner ∷ [];
      scope = own ∷ [];
      resource_context_required = true;
    }
    ∷ record (operation "API-ENR-003" "GET"
        "/me/internship-enrollments/{enrollmentId}/task-assignments") {
          permission_key = some "internship.task.read_assigned";
          roles = role_learner ∷ [];
          scope = own ∷ [];
          resource_context_required = true;
        }
    ∷ record (operation "API-ENR-004" "POST"
        "/admin/internship-enrollments/{enrollmentId}/task-assignments") {
          permission_key = some "internship.task.manage_assign";
          roles = role_admin ∷ [];
          resource_context_required = true;
          audit_required = true;
        }
    ∷ record (operation "API-ENR-005" "GET" "/admin/internship-enrollments/{enrollmentId}") {
      permission_key = some "internship.task.manage_assign";
      roles = role_admin ∷ [];
      additional_permission_keys =
          some ("internship.task.manage_assign" ∷ "completion.review_assigned" ∷ []);
      resource_context_required = true;
    }
    ∷ []

abbrev pub file_operations : List ApiOperationAuthorization
file_operations =
    record (operation "API-FILE-001" "POST" "/files") {
      permission_key = none;
      scope = own ∷ org ∷ asg ∷ [];
      authorization_mode = caller_domain_permission;
      implementation_status = some "DEFERRED_GAP_013";
      note =
          some
            "API Contract v1.1: 'Session' + 'Caller domain permission[OWN / ORG / ASG + parent state]'. Confirmed generic infrastructure operation reused by 3+ distinct domains with distinct permission keys and scope types -- portfolio.manage_own[OWN] via UC-LRN-003, submission.create_update_own[OWN] via UC-INT-006, report.prepare_review_assigned[ASG] via UC-RPT-001 -- so no single fixed RBAC key exists to assign; inventing one would misrepresent the contract. A session is always required (never public). The real permission/resource-context check must be supplied by whichever parent domain is uploading, via a resolver that does not exist yet (Wave 0D-3+); until then this must fail closed rather than be treated as authenticated-only. Production upload is additionally gated by GAP-013 (file type/size/malware-scanning/retention policy; runtime 409 FILE_POLICY_NOT_CONFIGURED per API Contract v1.1 SS4.2) -- a separate, deferred-implementation concern from this authorization classification.";
    }
    ∷ record (operation "API-FILE-002" "GET" "/files/{storedObjectId}/download") {
      permission_key = none;
      scope = own ∷ org ∷ asg ∷ public ∷ [];
      requires_auth = false;
      authorization_mode = caller_domain_permission;
      resource_context_required = true;
      note =
          some
            "API Contract v1.1: 'Session or public certificate verification flow where explicitly allowed' + 'Caller domain permission[OWN / ORG / ASG / governed public certificate]'. Same caller-domain-delegated model as API-FILE-001 for the general (session) case -- no single fixed key. requiresAuth is false only because of the second, narrow, explicitly documented exception: a file tied to the governed public certificate-verification flow (the existing PUB-scoped certificate.verify_public permission) may be served without a session. This is not a blanket 'files are public' rule -- every other path still requires session + caller-domain permission, and must fail closed until Wave 0D-3+ implements the resolver.";
    }
    ∷ []

abbrev pub consulting_area : List ApiOperationAuthorization
consulting_area =
    con_operations_1 ++ con_operations_2 ++ con_operations_3 ++ crs_operations ++ don_operations
    ++ emp_operations ++ enr_operations ++ file_operations
