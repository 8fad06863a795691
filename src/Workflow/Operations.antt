-- ===== src/Workflow/Operations.antt =====
-- Which workflow command each API operation runs (src/core/workflow/workflow-operation-map.ts).
pub mod Laws
use cyber_hub_api.Prelude.{String, str_eq, Option, List, [], ◌∷◌, ◌++◌, last_entry}
use cyber_hub_api.Workflow.Types.{
  WorkflowEntityType, WorkflowState, WorkflowTransitionId, career_listing, certificate,
  consulting_request, course, employer_opportunity, finding, internship_application,
  internship_programme, monitoring_subscription, report, resource, security_assessment, submission,
}

pub data WorkflowOperationMapping : Type 0 where
  transition : WorkflowEntityType → List WorkflowTransitionId → WorkflowOperationMapping
  edit_guard : WorkflowEntityType → List WorkflowState → WorkflowOperationMapping
  delete_guard : WorkflowEntityType → List WorkflowState → WorkflowOperationMapping

abbrev pub application_and_assessment_operations : List (String × WorkflowOperationMapping)
application_and_assessment_operations =
    ("API-APP-001", transition internship_application ("WF-APP-01" ∷ []))
    ∷ ("API-APP-006", transition internship_application ("WF-APP-02" ∷ []))
    ∷ ("API-APP-007", transition internship_application ("WF-APP-03" ∷ []))
    ∷ ("API-APP-008", transition internship_application ("WF-APP-04" ∷ []))
    ∷ ("API-ASM-001", transition security_assessment ("WF-ASM-01" ∷ []))
    ∷ ("API-ASM-004", transition security_assessment ("WF-ASM-02" ∷ []))
    ∷ ("API-ASM-005", transition security_assessment ("WF-ASM-03" ∷ []))
    ∷ ("API-ASM-006", transition security_assessment ("WF-ASM-04" ∷ "WF-ASM-05" ∷ []))
    ∷ []

abbrev pub business_listing_operations : List (String × WorkflowOperationMapping)
business_listing_operations =
    ("API-BIZCAR-001", transition career_listing ("WF-LST-01" ∷ []))
    ∷ ("API-BIZCAR-004", edit_guard career_listing ("REJECTED" ∷ []))
    ∷ ("API-BIZCAR-005", transition career_listing ("WF-LST-05" ∷ []))
    ∷ ("API-BIZCAR-006", transition career_listing ("WF-LST-06" ∷ []))
    ∷ ("API-BIZOPP-001", transition employer_opportunity ("WF-LST-01" ∷ []))
    ∷ ("API-BIZOPP-004", edit_guard employer_opportunity ("REJECTED" ∷ []))
    ∷ ("API-BIZOPP-005", transition employer_opportunity ("WF-LST-05" ∷ []))
    ∷ ("API-BIZOPP-006", transition employer_opportunity ("WF-LST-06" ∷ []))
    ∷ []

abbrev pub certificate_and_consulting_operations : List (String × WorkflowOperationMapping)
certificate_and_consulting_operations =
    ("API-CER-002", transition certificate ("WF-CERT-01" ∷ []))
    ∷ ("API-CER-006", transition certificate ("WF-CERT-02" ∷ []))
    ∷ ("API-CON-001", transition consulting_request ("WF-REQ-01" ∷ []))
    ∷ ("API-CON-009", transition consulting_request ("WF-REQ-02" ∷ []))
    ∷ ("API-CON-010", transition consulting_request ("WF-REQ-03" ∷ []))
    ∷ ("API-CON-011", transition consulting_request ("WF-REQ-04" ∷ []))
    ∷ ("API-CON-012", transition consulting_request ("WF-REQ-05" ∷ []))
    ∷ ("API-CON-013", transition consulting_request ("WF-REQ-06" ∷ []))
    ∷ []

abbrev pub finding_and_programme_operations : List (String × WorkflowOperationMapping)
finding_and_programme_operations =
    ("API-FND-001", transition finding ("WF-FND-01" ∷ []))
    ∷ ("API-FND-004", edit_guard finding ("OPEN" ∷ "REMEDIATION_IN_PROGRESS" ∷ []))
    ∷ ("API-FND-005", transition finding ("WF-FND-02" ∷ []))
    ∷ ("API-FND-006", transition finding ("WF-FND-03" ∷ "WF-FND-04" ∷ []))
    ∷ ("API-FND-007", transition finding ("WF-FND-05" ∷ []))
    ∷ ("API-INT-004", edit_guard internship_programme ("DRAFT" ∷ []))
    ∷ ("API-INT-005", transition internship_programme ("WF-PRG-01" ∷ []))
    ∷ ("API-INT-006", transition internship_programme ("WF-PRG-02" ∷ []))
    ∷ ("API-INT-007", transition internship_programme ("WF-PRG-03" ∷ []))
    ∷ ("API-INT-008", transition internship_programme ("WF-PRG-04" ∷ []))
    ∷ []

abbrev pub moderation_and_monitoring_operations : List (String × WorkflowOperationMapping)
moderation_and_monitoring_operations =
    ("API-MOD-CAR-01", transition career_listing ("WF-LST-02" ∷ []))
    ∷ ("API-MOD-CAR-02", transition career_listing ("WF-LST-03" ∷ []))
    ∷ ("API-MOD-CAR-03", transition career_listing ("WF-LST-04" ∷ []))
    ∷ ("API-MOD-CAR-04", transition career_listing ("WF-LST-06" ∷ []))
    ∷ ("API-MOD-OPP-01", transition employer_opportunity ("WF-LST-02" ∷ []))
    ∷ ("API-MOD-OPP-02", transition employer_opportunity ("WF-LST-03" ∷ []))
    ∷ ("API-MOD-OPP-03", transition employer_opportunity ("WF-LST-04" ∷ []))
    ∷ ("API-MOD-OPP-04", transition employer_opportunity ("WF-LST-06" ∷ []))
    ∷ ("API-MON-001", transition monitoring_subscription ("WF-MON-01" ∷ []))
    ∷ ("API-MON-006", transition monitoring_subscription ("WF-MON-02" ∷ []))
    ∷ ("API-MON-007", transition monitoring_subscription ("WF-MON-03" ∷ []))
    ∷ ("API-MON-008", transition monitoring_subscription ("WF-MON-04" ∷ []))
    ∷ (
      "API-MON-009",
      transition monitoring_subscription ("WF-MON-05" ∷ "WF-MON-06" ∷ "WF-MON-07" ∷ []),
    )
    ∷ []

abbrev pub review_and_report_operations : List (String × WorkflowOperationMapping)
review_and_report_operations =
    ("API-REV-003", transition submission ("WF-SUB-02" ∷ []))
    ∷ ("API-REV-004", transition submission ("WF-SUB-03" ∷ []))
    ∷ ("API-REV-005", transition submission ("WF-SUB-04" ∷ []))
    ∷ ("API-RPT-001", transition report ("WF-RPT-01" ∷ []))
    ∷ ("API-RPT-003", edit_guard report ("DRAFT" ∷ []))
    ∷ ("API-RPT-004", edit_guard report ("DRAFT" ∷ []))
    ∷ ("API-RPT-005", transition report ("WF-RPT-02" ∷ []))
    ∷ ("API-RPT-006", transition report ("WF-RPT-03" ∷ "WF-RPT-05" ∷ []))
    ∷ ("API-RPT-007", transition report ("WF-RPT-04" ∷ []))
    ∷ ("API-RPT-008", transition report ("WF-RPT-06" ∷ []))
    ∷ ("API-RPT-009", transition report ("WF-RPT-07" ∷ []))
    ∷ ("API-SUB-001", transition submission ("WF-SUB-01" ∷ []))
    ∷ ("API-SUB-003", transition submission ("WF-SUB-05" ∷ []))
    ∷ []

abbrev pub learning_operations : List (String × WorkflowOperationMapping)
learning_operations =
    ("API-ADMRES-001", transition resource ("WF-RES-01" ∷ []))
    ∷ ("API-ADMRES-002", edit_guard resource ("DRAFT" ∷ "PUBLISHED" ∷ "ARCHIVED" ∷ []))
    ∷ ("API-ADMRES-003", transition resource ("WF-RES-02" ∷ "WF-RES-04" ∷ []))
    ∷ ("API-ADMRES-004", transition resource ("WF-RES-03" ∷ []))
    ∷ ("API-ADMRES-005", delete_guard resource ("DRAFT" ∷ []))
    ∷ ("API-ADMCRS-002", edit_guard course ("DRAFT" ∷ "REJECTED" ∷ []))
    ∷ ("API-ADMCRS-003", transition course ("WF-CRS-02" ∷ "WF-CRS-03" ∷ []))
    ∷ ("API-ADMCRS-004", transition course ("WF-CRS-04" ∷ "WF-CRS-05" ∷ []))
    ∷ ("API-ADMCRS-005", delete_guard course ("DRAFT" ∷ "REJECTED" ∷ []))
    ∷ []

abbrev pub workflow_operation_map : List (String × WorkflowOperationMapping)
workflow_operation_map =
    application_and_assessment_operations ++ business_listing_operations
    ++ certificate_and_consulting_operations ++ finding_and_programme_operations
    ++ moderation_and_monitoring_operations ++ review_and_report_operations ++ learning_operations

unfoldable pub get_workflow_operation_mapping : String → Option WorkflowOperationMapping
get_workflow_operation_mapping api_id = last_entry str_eq api_id workflow_operation_map
