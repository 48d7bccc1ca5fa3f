-- ===== src/Sidebar.antt =====
-- The sidebar of the internal client, web/internal/src/shared/SidebarLayout.tsx: the roles that a
-- user can switch between, the menu of the active role, the selected entry and the page title.
pub mod Header
pub mod Selection
pub mod Reference
pub mod Roles
use Prim.Native.String.{count}
use text.Mathlib.Text.{starts_with, find?}
use helpdesk_go.Base.{
  ℕ, Bool, true, false, ◌&&◌, ◌||◌, not, String, ◌==◌, ◌<>◌, Option, none, some, List, [], ◌∷◌,
  ◌++◌, map, includes, find, keep, leb, length, or_text, nonempty, if◌then◌else◌,
}
use helpdesk_go.Http.{Method, post, M, pure, catch, fetch, send_empty, ◌>>=◌, ◌>>◌}
use helpdesk_go.Access.{Me, roles_of}

pub data Role : Type 0 where
  agent manager admin : Role

pub record NavChild : Type 0 where
  pub key : String
  pub label : String
  pub path : String

pub record NavGroup : Type 0 where
  pub key : String
  pub label : String
  pub path : Option String
  pub children : Option (List NavChild)

abbrev pub link : String → String → String → NavGroup
link key label path = record { key = key; label = label; path = some path; children = none }

abbrev child : String → String → String → NavChild
child key label path = record { key = key; label = label; path = path }

abbrev ticket_views : List NavChild
ticket_views =
    child "tickets-all" "All Tickets" "/tickets"
    ∷ child "tickets-assigned" "My Tickets" "/tickets?assignee=me"
    ∷ child "tickets-unassigned" "Grab Tickets" "/tickets?assignee=none"
    ∷ child "tickets-closed" "Closed Tickets" "/tickets?status=closed"
    ∷ []

unfoldable pub nav_config : Role → List NavGroup
nav_config agent =
    link "dashboard" "Dashboard" "/"
    ∷ link "tickets-dashboard" "Tickets" "/tickets"
    ∷ record {
      key = "tickets-group";
      label = "Ticket Views";
      path = none;
      children = some ticket_views;
    }
    ∷ link "assets" "Assets" "/assets"
    ∷ link "customers" "Customers" "/users"
    ∷ link "profile" "Profile" "/me/settings"
    ∷ []
nav_config manager =
    link "dashboard" "Dashboard" "/"
    ∷ link "manager-queue" "Queue Manager" "/manager"
    ∷ link "manager-analytics" "Analytics" "/manager/analytics"
    ∷ link "assets-dashboard" "Asset Dashboard" "/assets/dashboard"
    ∷ []
nav_config admin =
    link "admin-settings" "General Settings" "/settings"
    ∷ link "admin-users" "User Management" "/settings/users"
    ∷ link "admin-assets" "Asset Categories" "/assets/categories"
    ∷ link "admin-mail" "Mail Settings" "/settings/mail"
    ∷ link "admin-oidc" "OIDC Settings" "/settings/oidc"
    ∷ link "admin-storage" "Storage Settings" "/settings/storage"
    ∷ link "admin-discord" "Discord Settings" "/settings/discord"
    ∷ []

abbrev push_if : Bool → Role → List Role → List Role
push_if true r rest = r ∷ rest
push_if false r rest = rest

abbrev or_agent : List Role → List Role
or_agent [] = agent ∷ []
or_agent (r ∷ rs) = r ∷ rs

unfoldable pub available_roles : Option Me → List Role
available_roles me =
    let held = includes (roles_of me) in
    or_agent (
      push_if (held "agent") agent
        (push_if (held "manager") manager (push_if (held "admin") admin [])))

abbrev same_role : Role → Role → Bool
same_role agent agent = true
same_role manager manager = true
same_role admin admin = true
same_role _ _ = false

unfoldable pub has_role : List Role → Role → Bool
has_role [] r = false
has_role (s ∷ rs) r = same_role s r || has_role rs r

abbrev first_role : List Role → Role
first_role [] = agent
first_role (r ∷ rs) = r

-- The effect that runs when the available roles or the active role change.
unfoldable pub sync_role : List Role → Role → Role
unfolding has_role
sync_role available active = if has_role available active then active else first_role available

abbrev static_titles : List (String × String)
static_titles =
    ("/", "Dashboard")
    ∷ ("/tickets", "Tickets")
    ∷ ("/metrics", "Metrics")
    ∷ ("/assets", "Assets")
    ∷ ("/settings", "Settings")
    ∷ ("/settings/mail", "Mail Settings")
    ∷ ("/settings/oidc", "OIDC Settings")
    ∷ ("/settings/storage", "Storage Settings")
    ∷ ("/settings/users", "User Management")
    ∷ ("/manager", "Queue Manager")
    ∷ ("/manager/analytics", "Manager Analytics")
    ∷ ("/me/settings", "My Settings")
    ∷ []

abbrev titled : Option (String × String) → String → String
titled (some (path, t)) pathname = t <> " - Helpdesk"
titled none pathname =
    if starts_with pathname "/tickets/"
    then "Ticket Detail - Helpdesk"
    else if starts_with pathname "/assets/"
    then "Assets - Helpdesk"
    else "Helpdesk"

unfoldable pub title : String → String
title pathname = titled (find (λ e. e.0 == pathname) static_titles) pathname

-- An entry of the menu: its key, its label and the link, `#` where the group has no path.
pub record MenuItem : Type 0 where
  pub key : String
  pub label : String
  pub to : Option String
  pub children : List (String × String)

abbrev menu_item : NavGroup → Option (List NavChild) → MenuItem
menu_item g (some cs) = record {
  key = g.key;
  label = g.label;
  to = none;
  children = map (λ c. (c.key, c.path)) cs;
}
menu_item g none = record {
  key = g.key;
  label = g.label;
  to = some (or_text g.path "#");
  children = [];
}

unfoldable pub menu_items : Role → List MenuItem
unfolding nav_config
menu_items active = map (λ g. menu_item g g.children) (nav_config active)

abbrev has_children : Option (List NavChild) → Bool
has_children none = false
has_children (some cs) = true

unfoldable pub default_open_keys : Role → List String
unfolding nav_config
default_open_keys active =
    map (λ g. g.key) (keep (λ g. has_children g.children) (nav_config active))

-- A menu entry with a path.
pub record Entry : Type 0 where
  pub key : String
  pub path : String

abbrev own_entry : NavGroup → Option String → List Entry
own_entry g none = []
own_entry g (some p) = if p == "" then [] else record { key = g.key; path = p } ∷ []

abbrev pub children_of : Option (List NavChild) → List NavChild
children_of none = []
children_of (some cs) = cs

unfoldable pub concrete_items : List NavGroup → List Entry
concrete_items [] = []
concrete_items (g ∷ gs) =
    own_entry g g.path
    ++ (map (λ c. record { key = c.key; path = c.path }) (children_of g.children)
        ++ concrete_items gs)

-- `concreteItems.sort((a, b) => b.path.length - a.path.length)`: stable, the longest path first.
pub place : Entry → List Entry → List Entry
place e [] = e ∷ []
place e (f ∷ fs) = if leb (count f.path) (count e.path) then e ∷ f ∷ fs else f ∷ place e fs

pub sort_by_length : List Entry → List Entry
unfolding place
sort_by_length [] = []
sort_by_length (e ∷ es) = place e (sort_by_length es)

-- The location: `pathname`, and `search` with its `?`.
abbrev pub fits : String → String → Entry → Bool
fits pathname search e =
    (pathname <> search) == e.path || (not (e.path == "/") && pathname == e.path)

abbrev contains_mark : String → Bool
contains_mark p = elim (find? p "?") [ none ↦ false | some _ ↦ true ]

abbrev exact_child : String → NavChild → Bool
exact_child full c = nonempty c.path && (contains_mark c.path && full == c.path)

abbrev prefix_child : String → NavChild → Bool
prefix_child full c = nonempty c.path && (not (contains_mark c.path) && starts_with full c.path)

abbrev path_is : Option String → String → Bool
path_is none full = false
path_is (some p) full = nonempty p && full == p

abbrev path_starts : Option String → String → Bool
path_starts none pathname = false
path_starts (some p) pathname = nonempty p && (starts_with pathname p && not (p == "/"))

abbrev child_key : Option NavChild → Option NavChild → Option String
child_key (some c) other = some c.key
child_key none (some c) = some c.key
child_key none none = none

-- The second loop, which looks for prefixes.
pub nested_match : String → String → List NavGroup → Option String
nested_match pathname search [] = none
nested_match pathname search (g ∷ gs) =
    let full = pathname <> search in
    let cs = children_of g.children in
    let among = child_key (find (exact_child full) cs) (find (prefix_child full) cs) in
    let rest = nested_match pathname search gs in
    if path_is g.path full then some g.key else elim among [
      | some k ↦ some k
      | none ↦ (if path_starts g.path pathname then some g.key else rest)
    ]

abbrev or_dashboard : Option String → String
or_dashboard none = "dashboard"
or_dashboard (some k) = k

abbrev pub pick : Option Entry → Option String → String
pick (some e) nested = e.key
pick none nested = or_dashboard nested

-- The key of the selected menu entry.
unfoldable pub selected_key : List NavGroup → String → String → String
unfolding sort_by_length concrete_items nested_match
selected_key items pathname search =
    pick (find (fits pathname search) (sort_by_length (concrete_items items)))
      (nested_match pathname search items)

-- `doLogout`: a failed request is ignored, and the client goes to the login page in any case.
unfoldable pub do_logout : M String
unfolding fetch
do_logout = catch (fetch (send_empty post "/logout") >>= λ r. pure tt) (λ e. pure tt) >>= λ done.
    pure "/login"

unfoldable pub display_name : Option Me → String
display_name none = "User"
display_name (some me) = or_text me.display_name (or_text me.email "User")
