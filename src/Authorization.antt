-- ===== src/Authorization.antt =====
-- Authorization (src/core/security/authorization, src/core/security/guards).
pub mod Types
pub mod Permissions
pub mod RolePolicies
pub mod OperationPolicies
pub mod Operations
pub mod Conditions
pub mod Resolver
pub mod AuthScope
pub mod Scope
pub mod Disclosure
pub mod Guard
