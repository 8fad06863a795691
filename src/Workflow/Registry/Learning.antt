-- ===== src/Workflow/Registry/Learning.antt =====
-- The workflow definitions of learning resources and course deals
-- (src/core/workflow/workflow-registry.ts, WORKFLOW_DEFINITIONS).
use cyber_hub_api.Prelude.{[], ◌∷◌}
use cyber_hub_api.Workflow.Types.{WorkflowDefinition, resource, course}

abbrev pub resource_workflow : WorkflowDefinition
resource_workflow = record {
  entity_type = resource;
  states = "DRAFT" ∷ "PUBLISHED" ∷ "ARCHIVED" ∷ [];
  terminal_states = [];
  transitions =
      record {
        id = "WF-RES-01";
        from = [];
        to = "DRAFT";
        source = "State & Workflow Spec v1.3 §5A.1";
      }
      ∷ record {
        id = "WF-RES-02";
        from = "DRAFT" ∷ [];
        to = "PUBLISHED";
        source = "State & Workflow Spec v1.3 §5A.1 — sets published_at to server time";
      }
      ∷ record {
        id = "WF-RES-03";
        from = "PUBLISHED" ∷ [];
        to = "ARCHIVED";
        source = "State & Workflow Spec v1.3 §5A.1 — published_at retained";
      }
      ∷ record {
        id = "WF-RES-04";
        from = "ARCHIVED" ∷ [];
        to = "PUBLISHED";
        source = "State & Workflow Spec v1.3 §5A.1 — published_at reset to server time";
      }
      ∷ [];
}

abbrev pub course_workflow : WorkflowDefinition
course_workflow = record {
  entity_type = course;
  states = "DRAFT" ∷ "APPROVED" ∷ "REJECTED" ∷ [];
  terminal_states = [];
  transitions =
      record {
        id = "WF-CRS-01";
        from = [];
        to = "DRAFT";
        source = "State & Workflow Spec v1.3 §5A.2";
      }
      ∷ record {
        id = "WF-CRS-02";
        from = "DRAFT" ∷ [];
        to = "APPROVED";
        source =
            "State & Workflow Spec v1.3 §5A.2 — affiliate declared, disclosure when affiliated, not expired (service-enforced guards); stores verification note, clears rejection reason";
      }
      ∷ record {
        id = "WF-CRS-03";
        from = "REJECTED" ∷ [];
        to = "APPROVED";
        source = "State & Workflow Spec v1.3 §5A.2 — same guards and effects as WF-CRS-02";
      }
      ∷ record {
        id = "WF-CRS-04";
        from = "DRAFT" ∷ [];
        to = "REJECTED";
        source = "State & Workflow Spec v1.3 §5A.2 — rejection reason required (service-enforced)";
      }
      ∷ record {
        id = "WF-CRS-05";
        from = "APPROVED" ∷ [];
        to = "REJECTED";
        source =
            "State & Workflow Spec v1.3 §5A.2 — withdrawal; reason required (service-enforced); verification note unchanged";
      }
      ∷ [];
}
