-- ===== src/Reports.antt =====
-- The pages that show the answer to one query: web/internal/src/components/agent/CustomerList.tsx and
-- AgentMetrics.tsx, and components/manager/ManagerAnalytics.tsx.
use helpdesk_go.Base.{Bool, String, Option, none, some, List, [], if◌then◌else◌}
use helpdesk_go.Http.{Json, get, Request, send_empty}

abbrev pub customers_request : Request
customers_request = send_empty get "/requesters"

abbrev pub agent_metrics_request : Request
agent_metrics_request = send_empty get "/metrics/agent"

abbrev pub manager_analytics_request : Request
manager_analytics_request = send_empty get "/metrics/manager"

-- What a page of figures shows: a text while it loads or where the query has failed, or the data.
pub data View : Type 0 where
  text : String → View
  figures : String → Option Json → View

abbrev report : String → String → Bool → Bool → Option Json → View
report title failure loading failed shown =
    if loading then text "Loading..." else if failed then text failure else figures title shown

unfoldable pub agent_metrics : Bool → Bool → Option Json → View
agent_metrics = report "Agent Metrics" "Failed to load metrics"

unfoldable pub manager_analytics : Bool → Bool → Option Json → View
manager_analytics = report "Manager Analytics" "Failed to load analytics"

pub record Customer : Type 0 where
  pub id : String
  pub display_name : Option String
  pub email : Option String
  pub phone : Option String

-- `customers || []`
unfoldable pub customer_rows : Option (List Customer) → List Customer
customer_rows none = []
customer_rows (some customers) = customers
