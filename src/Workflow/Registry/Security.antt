-- ===== src/Workflow/Registry/Security.antt =====
-- The workflow definitions of security work: requests, assessments, findings and reports
-- (src/core/workflow/workflow-registry.ts, WORKFLOW_DEFINITIONS).
use cyber_hub_api.Prelude.{[], ◌∷◌}
use cyber_hub_api.Workflow.Types.{
  WorkflowDefinition, consulting_request, security_assessment, finding, report,
}

abbrev pub consulting_request_workflow : WorkflowDefinition
consulting_request_workflow = record {
  entity_type = consulting_request;
  states =
      "SUBMITTED" ∷ "UNDER_REVIEW" ∷ "ACCEPTED" ∷ "DECLINED" ∷ "IN_PROGRESS" ∷ "COMPLETED" ∷ [];
  terminal_states = "DECLINED" ∷ "COMPLETED" ∷ [];
  transitions =
      record {
        id = "WF-REQ-01";
        from = [];
        to = "SUBMITTED";
        source = "State & Workflow Spec v1.0 §6.1";
      }
      ∷ record {
        id = "WF-REQ-02";
        from = "SUBMITTED" ∷ [];
        to = "UNDER_REVIEW";
        source = "State & Workflow Spec v1.0 §6.1";
      }
      ∷ record {
        id = "WF-REQ-03";
        from = "UNDER_REVIEW" ∷ [];
        to = "ACCEPTED";
        source = "State & Workflow Spec v1.0 §6.1";
      }
      ∷ record {
        id = "WF-REQ-04";
        from = "UNDER_REVIEW" ∷ [];
        to = "DECLINED";
        source = "State & Workflow Spec v1.0 §6.1";
      }
      ∷ record {
        id = "WF-REQ-05";
        from = "ACCEPTED" ∷ [];
        to = "IN_PROGRESS";
        source = "State & Workflow Spec v1.0 §6.1";
      }
      ∷ record {
        id = "WF-REQ-06";
        from = "IN_PROGRESS" ∷ [];
        to = "COMPLETED";
        source = "State & Workflow Spec v1.0 §6.1";
      }
      ∷ [];
}

abbrev pub security_assessment_workflow : WorkflowDefinition
security_assessment_workflow = record {
  entity_type = security_assessment;
  states = "PLANNED" ∷ "IN_PROGRESS" ∷ "COMPLETED" ∷ "CANCELLED" ∷ [];
  terminal_states = "COMPLETED" ∷ "CANCELLED" ∷ [];
  transitions =
      record {
        id = "WF-ASM-01";
        from = [];
        to = "PLANNED";
        source = "State & Workflow Spec v1.0 §6.3";
      }
      ∷ record {
        id = "WF-ASM-02";
        from = "PLANNED" ∷ [];
        to = "IN_PROGRESS";
        source = "State & Workflow Spec v1.0 §6.3";
      }
      ∷ record {
        id = "WF-ASM-03";
        from = "IN_PROGRESS" ∷ [];
        to = "COMPLETED";
        source = "State & Workflow Spec v1.0 §6.3";
      }
      ∷ record {
        id = "WF-ASM-04";
        from = "PLANNED" ∷ [];
        to = "CANCELLED";
        source = "State & Workflow Spec v1.0 §6.3";
      }
      ∷ record {
        id = "WF-ASM-05";
        from = "IN_PROGRESS" ∷ [];
        to = "CANCELLED";
        source = "State & Workflow Spec v1.0 §6.3";
      }
      ∷ [];
}

abbrev pub finding_workflow : WorkflowDefinition
finding_workflow = record {
  entity_type = finding;
  states = "OPEN" ∷ "REMEDIATION_IN_PROGRESS" ∷ "RESOLVED" ∷ [];
  terminal_states = [];
  transitions =
      record {
        id = "WF-FND-01";
        from = [];
        to = "OPEN";
        source = "State & Workflow Spec v1.0 §6.4";
      }
      ∷ record {
        id = "WF-FND-02";
        from = "OPEN" ∷ [];
        to = "REMEDIATION_IN_PROGRESS";
        source = "State & Workflow Spec v1.0 §6.4";
      }
      ∷ record {
        id = "WF-FND-03";
        from = "OPEN" ∷ [];
        to = "RESOLVED";
        source = "State & Workflow Spec v1.0 §6.4";
      }
      ∷ record {
        id = "WF-FND-04";
        from = "REMEDIATION_IN_PROGRESS" ∷ [];
        to = "RESOLVED";
        source = "State & Workflow Spec v1.0 §6.4";
      }
      ∷ record {
        id = "WF-FND-05";
        from = "RESOLVED" ∷ [];
        to = "OPEN";
        source = "State & Workflow Spec v1.0 §6.4";
      }
      ∷ [];
}

abbrev pub report_workflow : WorkflowDefinition
report_workflow = record {
  entity_type = report;
  states = "DRAFT" ∷ "IN_REVIEW" ∷ "READY_FOR_RELEASE" ∷ "RELEASED" ∷ "SUPERSEDED" ∷ [];
  terminal_states = "SUPERSEDED" ∷ [];
  transitions =
      record { id = "WF-RPT-01"; from = []; to = "DRAFT"; source = "State & Workflow Spec v1.0 §7" }
      ∷ record {
        id = "WF-RPT-02";
        from = "DRAFT" ∷ [];
        to = "IN_REVIEW";
        source = "State & Workflow Spec v1.0 §7";
      }
      ∷ record {
        id = "WF-RPT-03";
        from = "IN_REVIEW" ∷ [];
        to = "DRAFT";
        source = "State & Workflow Spec v1.0 §7";
      }
      ∷ record {
        id = "WF-RPT-04";
        from = "IN_REVIEW" ∷ [];
        to = "READY_FOR_RELEASE";
        source = "State & Workflow Spec v1.0 §7";
      }
      ∷ record {
        id = "WF-RPT-05";
        from = "READY_FOR_RELEASE" ∷ [];
        to = "DRAFT";
        source = "State & Workflow Spec v1.0 §7";
      }
      ∷ record {
        id = "WF-RPT-06";
        from = "READY_FOR_RELEASE" ∷ [];
        to = "RELEASED";
        source = "State & Workflow Spec v1.0 §7 — RBAC-DEC-008";
      }
      ∷ record {
        id = "WF-RPT-07";
        from = "RELEASED" ∷ [];
        to = "SUPERSEDED";
        source = "State & Workflow Spec v1.0 §7";
      }
      ∷ [];
}
