-- ===== src/Workflow/Registry/Careers.antt =====
-- The workflow definitions of the employer side: career listings and opportunities
-- (src/core/workflow/workflow-registry.ts, WORKFLOW_DEFINITIONS).
use cyber_hub_api.Prelude.{[], ◌∷◌}
use cyber_hub_api.Workflow.Types.{WorkflowDefinition, career_listing, employer_opportunity}

abbrev pub career_listing_workflow : WorkflowDefinition
career_listing_workflow = record {
  entity_type = career_listing;
  states = "SUBMITTED" ∷ "UNDER_REVIEW" ∷ "PUBLISHED" ∷ "REJECTED" ∷ "CLOSED" ∷ [];
  terminal_states = "CLOSED" ∷ [];
  transitions =
      record {
        id = "WF-LST-01";
        from = [];
        to = "SUBMITTED";
        source = "State & Workflow Spec v1.0 §5";
      }
      ∷ record {
        id = "WF-LST-02";
        from = "SUBMITTED" ∷ [];
        to = "UNDER_REVIEW";
        source = "State & Workflow Spec v1.0 §5";
      }
      ∷ record {
        id = "WF-LST-03";
        from = "UNDER_REVIEW" ∷ [];
        to = "PUBLISHED";
        source = "State & Workflow Spec v1.0 §5";
      }
      ∷ record {
        id = "WF-LST-04";
        from = "UNDER_REVIEW" ∷ [];
        to = "REJECTED";
        source = "State & Workflow Spec v1.0 §5";
      }
      ∷ record {
        id = "WF-LST-05";
        from = "REJECTED" ∷ [];
        to = "SUBMITTED";
        source = "State & Workflow Spec v1.0 §5";
      }
      ∷ record {
        id = "WF-LST-06";
        from = "PUBLISHED" ∷ [];
        to = "CLOSED";
        source = "State & Workflow Spec v1.0 §5";
      }
      ∷ [];
}

abbrev pub employer_opportunity_workflow : WorkflowDefinition
employer_opportunity_workflow = record {
  entity_type = employer_opportunity;
  states = "SUBMITTED" ∷ "UNDER_REVIEW" ∷ "PUBLISHED" ∷ "REJECTED" ∷ "CLOSED" ∷ [];
  terminal_states = "CLOSED" ∷ [];
  transitions =
      record {
        id = "WF-LST-01";
        from = [];
        to = "SUBMITTED";
        source = "State & Workflow Spec v1.0 §5";
      }
      ∷ record {
        id = "WF-LST-02";
        from = "SUBMITTED" ∷ [];
        to = "UNDER_REVIEW";
        source = "State & Workflow Spec v1.0 §5";
      }
      ∷ record {
        id = "WF-LST-03";
        from = "UNDER_REVIEW" ∷ [];
        to = "PUBLISHED";
        source = "State & Workflow Spec v1.0 §5";
      }
      ∷ record {
        id = "WF-LST-04";
        from = "UNDER_REVIEW" ∷ [];
        to = "REJECTED";
        source = "State & Workflow Spec v1.0 §5";
      }
      ∷ record {
        id = "WF-LST-05";
        from = "REJECTED" ∷ [];
        to = "SUBMITTED";
        source = "State & Workflow Spec v1.0 §5";
      }
      ∷ record {
        id = "WF-LST-06";
        from = "PUBLISHED" ∷ [];
        to = "CLOSED";
        source = "State & Workflow Spec v1.0 §5";
      }
      ∷ [];
}
