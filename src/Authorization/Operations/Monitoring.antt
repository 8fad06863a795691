-- ===== src/Authorization/Operations/Monitoring.antt =====
-- Rows of API_AUTHORIZATION_MAP (src/core/security/authorization/api-authorization-map.ts).
use cyber_hub_api.Prelude.{true, false, some, List, [], ◌∷◌, ◌++◌}
use cyber_hub_api.Authorization.Types.{
  role_learner, role_business, role_consultant, role_admin, own, org, asg, public,
}
use cyber_hub_api.Authorization.Operations.Row.{ApiOperationAuthorization, operation}

abbrev pub mon_operations_1 : List ApiOperationAuthorization
mon_operations_1 =
    record (operation "API-MON-001" "POST" "/business/monitoring-subscriptions") {
      permission_key = some "monitoring.read_choose_own";
      roles = role_business ∷ [];
      scope = org ∷ [];
      workflow_validation_required = true;
      audit_required = true;
    }
    ∷ record (operation "API-MON-002" "GET" "/business/monitoring-subscriptions") {
      permission_key = some "monitoring.read_choose_own";
      roles = role_business ∷ [];
      scope = org ∷ [];
    }
    ∷ record (operation "API-MON-003" "GET" "/business/monitoring-subscriptions/{subscriptionId}") {
      permission_key = some "monitoring.read_choose_own";
      roles = role_business ∷ [];
      scope = org ∷ [];
      resource_context_required = true;
    }
    ∷ record (operation "API-MON-004" "GET" "/monitoring/subscriptions") {
      permission_key = some "monitoring.perform_assigned";
      roles = role_consultant ∷ role_admin ∷ [];
      scope = asg ∷ [];
      additional_permission_keys =
          some ("monitoring.perform_assigned" ∷ "monitoring.admin_manage" ∷ []);
      assignment_required = true;
    }
    ∷ record (operation "API-MON-005" "POST"
        "/admin/monitoring-subscriptions/{subscriptionId}/assign-consultant") {
          permission_key = some "monitoring.admin_manage";
          roles = role_admin ∷ [];
          resource_context_required = true;
          audit_required = true;
        }
    ∷ record (operation "API-MON-006" "POST"
        "/admin/monitoring-subscriptions/{subscriptionId}/activate") {
          permission_key = some "monitoring.admin_manage";
          roles = role_admin ∷ [];
          resource_context_required = true;
          workflow_validation_required = true;
          audit_required = true;
        }
    ∷ []

abbrev pub mon_operations_2 : List ApiOperationAuthorization
mon_operations_2 =
    record (operation "API-MON-007" "POST"
      "/admin/monitoring-subscriptions/{subscriptionId}/pause") {
        permission_key = some "monitoring.admin_manage";
        roles = role_admin ∷ [];
        resource_context_required = true;
        workflow_validation_required = true;
        audit_required = true;
      }
    ∷ record (operation "API-MON-008" "POST"
        "/admin/monitoring-subscriptions/{subscriptionId}/resume") {
          permission_key = some "monitoring.admin_manage";
          roles = role_admin ∷ [];
          resource_context_required = true;
          workflow_validation_required = true;
          audit_required = true;
        }
    ∷ record (operation "API-MON-009" "POST"
        "/admin/monitoring-subscriptions/{subscriptionId}/cancel") {
          permission_key = some "monitoring.admin_manage";
          roles = role_admin ∷ [];
          resource_context_required = true;
          workflow_validation_required = true;
          audit_required = true;
        }
    ∷ []

abbrev pub port_operations_1 : List ApiOperationAuthorization
port_operations_1 =
    record (operation "API-PORT-001" "GET" "/portfolios/{publicSlug}") {
      permission_key = some "portfolio.public.read";
      scope = public ∷ [];
      requires_auth = false;
      resource_context_required = true;
    }
    ∷ record (operation "API-PORT-002" "GET" "/me/portfolio") {
      permission_key = some "portfolio.manage_own";
      roles = role_learner ∷ [];
      scope = own ∷ [];
    }
    ∷ record (operation "API-PORT-003" "PATCH" "/me/portfolio/publication") {
      permission_key = some "portfolio.publish_control_own";
      roles = role_learner ∷ [];
      scope = own ∷ [];
    }
    ∷ record (operation "API-PORT-004" "POST" "/me/portfolio/projects") {
      permission_key = some "portfolio.manage_own";
      roles = role_learner ∷ [];
      scope = own ∷ [];
    }
    ∷ record (operation "API-PORT-005" "PATCH" "/me/portfolio/projects/{itemId}") {
      permission_key = some "portfolio.manage_own";
      roles = role_learner ∷ [];
      scope = own ∷ [];
      additional_permission_keys =
          some ("portfolio.manage_own" ∷ "portfolio.publish_control_own" ∷ []);
      resource_context_required = true;
    }
    ∷ record (operation "API-PORT-006" "DELETE" "/me/portfolio/projects/{itemId}") {
      permission_key = some "portfolio.manage_own";
      roles = role_learner ∷ [];
      scope = own ∷ [];
      resource_context_required = true;
    }
    ∷ []

abbrev pub port_operations_2 : List ApiOperationAuthorization
port_operations_2 =
    record (operation "API-PORT-007" "POST" "/me/portfolio/links") {
      permission_key = some "portfolio.manage_own";
      roles = role_learner ∷ [];
      scope = own ∷ [];
    }
    ∷ record (operation "API-PORT-008" "PATCH" "/me/portfolio/links/{itemId}") {
      permission_key = some "portfolio.manage_own";
      roles = role_learner ∷ [];
      scope = own ∷ [];
      additional_permission_keys =
          some ("portfolio.manage_own" ∷ "portfolio.publish_control_own" ∷ []);
      resource_context_required = true;
    }
    ∷ record (operation "API-PORT-009" "DELETE" "/me/portfolio/links/{itemId}") {
      permission_key = some "portfolio.manage_own";
      roles = role_learner ∷ [];
      scope = own ∷ [];
      resource_context_required = true;
    }
    ∷ record (operation "API-PORT-010" "POST" "/me/portfolio/skills") {
      permission_key = some "portfolio.manage_own";
      roles = role_learner ∷ [];
      scope = own ∷ [];
    }
    ∷ record (operation "API-PORT-011" "PATCH" "/me/portfolio/skills/{itemId}") {
      permission_key = some "portfolio.manage_own";
      roles = role_learner ∷ [];
      scope = own ∷ [];
      additional_permission_keys =
          some ("portfolio.manage_own" ∷ "portfolio.publish_control_own" ∷ []);
      resource_context_required = true;
    }
    ∷ record (operation "API-PORT-012" "DELETE" "/me/portfolio/skills/{itemId}") {
      permission_key = some "portfolio.manage_own";
      roles = role_learner ∷ [];
      scope = own ∷ [];
      resource_context_required = true;
    }
    ∷ []

abbrev pub port_operations_3 : List ApiOperationAuthorization
port_operations_3 =
    record (operation "API-PORT-013" "POST" "/me/portfolio/certifications") {
      permission_key = some "portfolio.manage_own";
      roles = role_learner ∷ [];
      scope = own ∷ [];
    }
    ∷ record (operation "API-PORT-014" "PATCH" "/me/portfolio/certifications/{itemId}") {
      permission_key = some "portfolio.manage_own";
      roles = role_learner ∷ [];
      scope = own ∷ [];
      additional_permission_keys =
          some ("portfolio.manage_own" ∷ "portfolio.publish_control_own" ∷ []);
      resource_context_required = true;
    }
    ∷ record (operation "API-PORT-015" "DELETE" "/me/portfolio/certifications/{itemId}") {
      permission_key = some "portfolio.manage_own";
      roles = role_learner ∷ [];
      scope = own ∷ [];
      resource_context_required = true;
    }
    ∷ record (operation "API-PORT-016" "POST" "/me/portfolio/evidence") {
      permission_key = some "portfolio.manage_own";
      roles = role_learner ∷ [];
      scope = own ∷ [];
    }
    ∷ record (operation "API-PORT-017" "PATCH" "/me/portfolio/evidence/{itemId}") {
      permission_key = some "portfolio.manage_own";
      roles = role_learner ∷ [];
      scope = own ∷ [];
      additional_permission_keys =
          some ("portfolio.manage_own" ∷ "portfolio.publish_control_own" ∷ []);
      resource_context_required = true;
    }
    ∷ record (operation "API-PORT-018" "DELETE" "/me/portfolio/evidence/{itemId}") {
      permission_key = some "portfolio.manage_own";
      roles = role_learner ∷ [];
      scope = own ∷ [];
      resource_context_required = true;
    }
    ∷ []

abbrev pub port_operations_4 : List ApiOperationAuthorization
port_operations_4 =
    record (operation "API-PORT-019" "POST" "/me/portfolio/achievements") {
      permission_key = some "portfolio.manage_own";
      roles = role_learner ∷ [];
      scope = own ∷ [];
    }
    ∷ record (operation "API-PORT-020" "PATCH" "/me/portfolio/achievements/{itemId}") {
      permission_key = some "portfolio.manage_own";
      roles = role_learner ∷ [];
      scope = own ∷ [];
      additional_permission_keys =
          some ("portfolio.manage_own" ∷ "portfolio.publish_control_own" ∷ []);
      resource_context_required = true;
    }
    ∷ record (operation "API-PORT-021" "DELETE" "/me/portfolio/achievements/{itemId}") {
      permission_key = some "portfolio.manage_own";
      roles = role_learner ∷ [];
      scope = own ∷ [];
      resource_context_required = true;
    }
    ∷ record (operation "API-PORT-022" "PUT" "/me/portfolio/certificates/{certificateId}") {
      permission_key = some "portfolio.manage_own";
      roles = role_learner ∷ [];
      scope = own ∷ [];
      resource_context_required = true;
    }
    ∷ record (operation "API-PORT-023" "PATCH" "/me/portfolio/certificates/{certificateId}") {
      permission_key = some "portfolio.publish_control_own";
      roles = role_learner ∷ [];
      scope = own ∷ [];
      resource_context_required = true;
    }
    ∷ record (operation "API-PORT-024" "DELETE" "/me/portfolio/certificates/{certificateId}") {
      permission_key = some "portfolio.manage_own";
      roles = role_learner ∷ [];
      scope = own ∷ [];
      resource_context_required = true;
    }
    ∷ []

abbrev pub port_operations_5 : List ApiOperationAuthorization
port_operations_5 =
    record (operation "API-PORT-025" "GET" "/business/talent") {
      permission_key = some "employer.talent.discover";
      roles = role_business ∷ [];
      scope = public ∷ [];
    }
    ∷ []

abbrev pub monitoring_area : List ApiOperationAuthorization
monitoring_area =
    mon_operations_1 ++ mon_operations_2 ++ port_operations_1 ++ port_operations_2
    ++ port_operations_3 ++ port_operations_4 ++ port_operations_5
