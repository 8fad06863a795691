-- ===== src/Engagements.antt =====
-- Security engagements (src/modules/consulting, security-work, security-report): a client's
-- consulting request, the assessments made for it, their findings, and the reports on them.
pub mod Schema
pub mod Action
pub mod Access
pub mod Assessments
pub mod Findings
pub mod Reports
pub mod Consistency
pub mod Scopes
pub mod Consulting
