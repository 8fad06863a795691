-- ===== src/Authorization/Resolver.antt =====
-- The resolvers of resource context (src/core/security/authorization/resource-context-resolver.ts).
-- A resolver is supplied by a product module: it finds the resource, reports that there is none,
-- or throws.
use cyber_hub_api.Prelude.{
  String, Option, none, some, List, str_eq, last_entry, index_by, if◌then◌else◌,
}
use cyber_hub_api.Authorization.Types.{ActorContext, ResourceContext, RouteParams}

pub data Resolution : Type 0 where
  returned : Option ResourceContext → Resolution
  threw : Resolution

pub record ResourceContextResolver : Type 0 where
  pub resource_type : String
  pub resolve : ActorContext → RouteParams → Resolution

pub data ResourceResolutionOutcome : Type 0 where
  found : ResourceContext → ResourceResolutionOutcome
  not_found no_resolver resolver_failure : ResourceResolutionOutcome

abbrev pub ResolverRegistry : Type 0
ResolverRegistry = List (String × ResourceContextResolver)

-- The constructor throws (`none`) on a second resolver for a type.
unfoldable pub new_resolver_registry : List ResourceContextResolver → Option ResolverRegistry
unfolding index_by
new_resolver_registry resolvers =
    index_by (λ (r : ResourceContextResolver). r.resource_type) resolvers

abbrev outcome_of : String → Resolution → ResourceResolutionOutcome
outcome_of resource_type (returned none) = not_found
outcome_of resource_type (returned (some resource)) =
    if str_eq resource.resource_type resource_type then found resource else resolver_failure
outcome_of resource_type threw = resolver_failure

unfoldable pub resolve_outcome :
    ResolverRegistry → String → ActorContext → RouteParams → ResourceResolutionOutcome
resolve_outcome registry resource_type actor route_params =
    elim (last_entry str_eq resource_type registry) [
      | none ↦ no_resolver
      | some resolver ↦ outcome_of resource_type (resolver.resolve actor route_params)
    ]

-- `resolve`: every failure is `null`.
unfoldable pub resolve_context :
    ResolverRegistry → String → ActorContext → RouteParams → Option ResourceContext
resolve_context registry resource_type actor route_params =
    elim (resolve_outcome registry resource_type actor route_params) [
      | found resource ↦ some resource
      | _ ↦ none
    ]
