-- ===== src/Workflow.antt =====
-- The workflow state machines (src/core/workflow).
pub mod Types
pub mod Registry
pub mod Validation
pub mod Table
pub mod Cas
pub mod Helper
pub mod Operations
