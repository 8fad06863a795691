-- ===== src/Authorization/Operations.antt =====
-- What the API contract says of each operation
-- (src/core/security/authorization/api-authorization-map.ts).
pub mod Row
pub mod Laws
mod Accounts
mod Careers
mod Consulting
mod Programmes
mod Monitoring
mod Reports
mod Scores
use Accounts.{accounts_area}
use Careers.{careers_area}
use Consulting.{consulting_area}
use Programmes.{programmes_area}
use Monitoring.{monitoring_area}
use Reports.{reports_area}
use Scores.{scores_area}
use Row.{ApiOperationAuthorization}
use cyber_hub_api.Prelude.{Bool, Option, List, ◌++◌, map, includes, str_eq, last_entry}
use cyber_hub_api.Authorization.Types.{ApiId}

abbrev pub api_authorization_map : List ApiOperationAuthorization
api_authorization_map =
    accounts_area ++ careers_area ++ consulting_area ++ programmes_area ++ monitoring_area
    ++ reports_area ++ scores_area

-- `API_IDS_SET.has(value)`
unfoldable pub is_api_id : ApiId → Bool
is_api_id value =
    includes value (map (λ (op : ApiOperationAuthorization). op.api_id) api_authorization_map)

-- `API_AUTHORIZATION_BY_ID.get(apiId)`
unfoldable pub api_authorization_by_id : ApiId → Option ApiOperationAuthorization
api_authorization_by_id api_id =
    last_entry str_eq api_id
      (map (λ (op : ApiOperationAuthorization). (op.api_id, op)) api_authorization_map)
