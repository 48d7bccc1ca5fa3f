-- ===== src/Access/Routes.antt =====
-- The route table of web/internal/src/App.tsx, its landing page and its catch-all.
use helpdesk_go.Base.{
  ◌||◌, String, ◌==◌, Option, none, some, List, [], ◌∷◌, find, includes, if◌then◌else◌,
}
use helpdesk_go.Access.{
  MeQuery, loading, loaded, Gate, outlet, navigate, roles_of, require_role, require_any_role,
}

pub data Page : Type 0 where
  login landing queue_list ticket_detail agent_metrics asset_list asset_detail : Page
  asset_dashboard customer_list admin_settings mail_settings oidc_settings : Page
  storage_settings discord_settings admin_users asset_categories asset_import : Page
  asset_analytics coming_soon user_settings asset_checkout queue_manager : Page
  manager_analytics asset_form bulk_operations asset_audit not_found_redirect : Page

-- The element around a route.
pub data Guard : Type 0 where
  unguarded : Guard
  role : String → Guard
  any_role : List String → Guard

pub record Route : Type 0 where
  pub path : String
  pub guard : Guard
  pub page : Page

abbrev open_route : String → Page → Route
open_route path page = record { path = path; guard = unguarded; page = page }

abbrev for_role : String → String → Page → Route
for_role r path page = record { path = path; guard = role r; page = page }

abbrev pub agent_routes : List Route
agent_routes =
    for_role "agent" "/tickets" queue_list
    ∷ for_role "agent" "/tickets/:id" ticket_detail
    ∷ for_role "agent" "/metrics" agent_metrics
    ∷ for_role "agent" "/assets" asset_list
    ∷ for_role "agent" "/assets/:id" asset_detail
    ∷ for_role "agent" "/assets/dashboard" asset_dashboard
    ∷ for_role "agent" "/users" customer_list
    ∷ []

abbrev pub admin_routes : List Route
admin_routes =
    for_role "admin" "/settings" admin_settings
    ∷ for_role "admin" "/settings/mail" mail_settings
    ∷ for_role "admin" "/settings/oidc" oidc_settings
    ∷ for_role "admin" "/settings/storage" storage_settings
    ∷ for_role "admin" "/settings/discord" discord_settings
    ∷ for_role "admin" "/settings/users" admin_users
    ∷ for_role "admin" "/assets/categories" asset_categories
    ∷ for_role "admin" "/assets/import" asset_import
    ∷ for_role "admin" "/assets/analytics" asset_analytics
    ∷ for_role "admin" "/settings/*" coming_soon
    ∷ []

abbrev pub manager_routes : List Route
manager_routes =
    for_role "manager" "/manager" queue_manager
    ∷ for_role "manager" "/manager/analytics" manager_analytics
    ∷ for_role "manager" "/assets/new" asset_form
    ∷ for_role "manager" "/assets/:id/edit" asset_form
    ∷ for_role "manager" "/assets/bulk" bulk_operations
    ∷ for_role "manager" "/assets/audit" asset_audit
    ∷ []

-- The index route is written by its path, `/`.
abbrev pub shared_routes : List Route
shared_routes =
    open_route "/login" login
    ∷ open_route "/" landing
    ∷ open_route "/me/settings" user_settings
    ∷ record {
      path = "/assets/checkouts";
      guard = any_role ("agent" ∷ "manager" ∷ []);
      page = asset_checkout;
    }
    ∷ open_route "*" not_found_redirect
    ∷ []

-- The route declared at a path, without its parameters. React Router prefers such a route to one
-- whose path has parameters.
unfoldable pub declared : List Route → String → Option Route
declared routes path = find (λ r. r.path == path) routes

unfoldable pub pass_guard : Guard → MeQuery → Gate
unfolding require_role require_any_role
pass_guard unguarded q = outlet
pass_guard (role r) q = require_role r q
pass_guard (any_role rs) q = require_any_role rs q

pub data LandingView : Type 0 where
  blank login_form welcome : LandingView

unfoldable pub landing_view : MeQuery → LandingView
landing_view loading = blank
landing_view (loaded none) = login_form
landing_view (loaded (some me)) = welcome

-- `const { data } = useMe()`: while it loads there is no data.
abbrev me_roles : MeQuery → List String
me_roles loading = []
me_roles (loaded me) = roles_of me

unfoldable pub not_found : MeQuery → Gate
not_found q =
    if includes (me_roles q) "agent" || includes (me_roles q) "admin"
    then navigate "/tickets"
    else if includes (me_roles q) "manager"
    then navigate "/manager"
    else navigate "/"
