-- ===== src/Assets/Analytics.antt =====
-- The queries of the analytics page and of the dashboard of the assets,
-- web/internal/src/components/assets/AssetAnalytics.tsx and AssetDashboard.tsx, with the figures that
-- the dashboard shows.
pub mod View
use helpdesk_go.Base.{ℕ, String, ◌<>◌, Option, none, some, List, [], ◌∷◌, ◌++◌}
use helpdesk_go.Http.{M, ◌>>=◌, Json}
use helpdesk_go.Http.Convert.{decimal}
use helpdesk_go.Queries.Params.{given}
use helpdesk_go.Api.Generic.{no_options, api_get}
use helpdesk_go.Assets.Catalog.{read_data}

-- The state of the page. `Date` is the date library's type.
pub record Filters (Date : Type 0) : Type 0 where
  pub date_range : Option (Date × Date)
  pub category_filter : Option String

module _ {Date : Type 0} (format : Date → String) where
  abbrev pub range_params : Option (Date × Date) → List (String × String)
  range_params none = []
  range_params (some (from, to)) = ("start_date", format from) ∷ ("end_date", format to) ∷ []

  unfoldable pub analytics_params : Filters Date → List (String × String)
  analytics_params f = range_params f.date_range ++ given "category" f.category_filter

  unfoldable pub load_analytics : Filters Date → M (Option Json)
  unfolding api_get read_data analytics_params
  load_analytics f =
      api_get "/assets/analytics" (analytics_params f) no_options >>= λ v w. (read_data v, w)

pub record Summary : Type 0 where
  pub total_assets : ℕ
  pub active_assets : ℕ
  pub maintenance_assets : ℕ

unfoldable pub load_dashboard : M (Option Json)
unfolding api_get read_data
load_dashboard = api_get "/assets/analytics" [] no_options >>= λ v w. (read_data v, w)

-- The figures of the three cards: title, value, and what follows the value. Without data all are 0.
unfoldable pub dashboard_cards : Option Summary → List (String × (ℕ × String))
dashboard_cards none =
    ("Total Assets", (0, "")) ∷ ("Active Assets", (0, "/ 0")) ∷ ("Maintenance", (0, "")) ∷ []
dashboard_cards (some s) =
    ("Total Assets", (s.total_assets, ""))
    ∷ ("Active Assets", (s.active_assets, "/ " <> decimal s.total_assets))
    ∷ ("Maintenance", (s.maintenance_assets, ""))
    ∷ []
