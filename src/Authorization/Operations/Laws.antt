-- ===== src/Authorization/Operations/Laws.antt =====
-- The API map agrees with the permission registry and with the workflow operations.
use cyber_hub_api.Prelude.{
  ◌≡◌, refl, ◌↔◌, inl, inr, arith, Option-cases, Bool, true, false, not, ◌&&◌, ◌||◌, Option, none,
  some, List, Memᴰ, every, every_mem, some_of,
}
use cyber_hub_api.Authorization.Types.{Role, same_role, PermissionKey}
use cyber_hub_api.Authorization.Permissions.{PermissionDefinition, permission_registry}
use cyber_hub_api.Authorization.Operations.{api_authorization_map}
use cyber_hub_api.Authorization.Operations.Row.{ApiOperationAuthorization}
use cyber_hub_api.Workflow.Operations.{WorkflowOperationMapping, get_workflow_operation_mapping}

abbrev is_some {ℓ} : {A : Type ℓ} → Option A → Bool
is_some none = false
is_some (some x) = true

abbrev agrees : Bool → Bool → Bool
agrees a b = a && b || not a && not b

abbrev is_mapped_as_required : ApiOperationAuthorization → Bool
is_mapped_as_required op =
    agrees (is_some (get_workflow_operation_mapping op.api_id)) op.workflow_validation_required

every_row_mapped : every is_mapped_as_required api_authorization_map ≡ true
unfolding get_workflow_operation_mapping
every_row_mapped = refl

-- The API map asks for workflow validation of exactly those of its operations that the workflow
-- map has an entry for.
pub workflow_validation_iff_mapped :
    (op : ApiOperationAuthorization)
    → Memᴰ op api_authorization_map
    → (op.workflow_validation_required ≡ true)
      ↔ ((m : WorkflowOperationMapping) × (get_workflow_operation_mapping op.api_id ≡ some m))
workflow_validation_iff_mapped op m =
    let row = every_mem is_mapped_as_required api_authorization_map every_row_mapped m in
    elim (Option-cases (get_workflow_operation_mapping op.api_id)) [
      | inl gone ↦ (λ h. absurd (ground arith), λ (x, e). absurd (ground arith))
      | inr (x, located) ↦ (λ h. (x, located), λ h. ground arith)
    ]

abbrev grants_allowed : Option PermissionDefinition → List Role → Bool
grants_allowed none roles = false
grants_allowed (some d) roles =
    not d.system_only && every (λ (r : Role). some_of (same_role r) d.allowed_roles) roles

abbrev is_granted : ApiOperationAuthorization → Bool
is_granted op = elim op.permission_key [
  | none ↦ true
  | some key ↦ grants_allowed (permission_registry key) op.roles
]

every_row_granted : every is_granted api_authorization_map ≡ true
unfolding permission_registry
every_row_granted = refl

-- Every operation of the API map that names a permission names one of the registry that is not the
-- system's own, and whose allowed roles include each role that the operation lists.
pub operation_roles_allowed :
    (op : ApiOperationAuthorization) (key : PermissionKey) (role : Role)
    → Memᴰ op api_authorization_map
    → op.permission_key ≡ some key
    → Memᴰ role op.roles
    → (d : PermissionDefinition) × (permission_registry key ≡ some d)
      × (d.system_only ≡ false)
      × (some_of (same_role role) d.allowed_roles ≡ true)
operation_roles_allowed op key role m named listed =
    let row = every_mem is_granted api_authorization_map every_row_granted m in
    elim (Option-cases (permission_registry key)) [
      | inl gone ↦ absurd (ground arith)
      | inr (d, located) ↦
          let roles : every (λ (r : Role). some_of (same_role r) d.allowed_roles) op.roles ≡ true =
            ground arith in
          (
            d,
            located,
            ground arith,
            every_mem (λ (r : Role). some_of (same_role r) d.allowed_roles) op.roles roles listed,
          )
    ]
