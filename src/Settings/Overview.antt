-- ===== src/Settings/Overview.antt =====
-- The overview of the settings, components/admin/AdminSettings.tsx, and the roles of a user by ID,
-- components/admin/UserRoleManagement.tsx.
use helpdesk_go.Base.{
  ◌≡◌, arith, Bool, true, false, ◌||◌, String, ◌==◌, ◌<>◌, or_text, includes, Option, none, some,
  List, [], ◌∷◌, All, if◌then◌else◌,
}
use helpdesk_go.Http.{get, send_empty, Request}
use helpdesk_go.Access.{Me, roles_of}
use helpdesk_go.Access.Routes.{declared, pass_guard}
use helpdesk_go.Sidebar.Roles.{routes, Shows}

unfoldable pub status_color : String → String
status_color status =
    if status == "connected" || status == "configured"
    then "success"
    else if status == "disconnected" || status == "not_configured"
    then "error"
    else "default"

unfoldable pub status_text : String → String
status_text status =
    if status == "connected"
    then "Connected"
    else if status == "configured"
    then "Configured"
    else if status == "disconnected"
    then "Disconnected"
    else if status == "not_configured"
    then "Not Configured"
    else status

-- `useSystemInfo`'s data.
pub record SystemInfo : Type 0 where
  pub version : Option String
  pub uptime : Option String
  pub database_status : Option String
  pub storage_status : Option String
  pub mail_status : Option String
  pub oidc_status : Option String
  pub discord_status : Option String

pub record Category : Type 0 where
  pub title : String
  pub path : String
  pub status : Option String

unfoldable pub settings_categories : SystemInfo → List Category
settings_categories i =
    record { title = "Discord Bot"; path = "/settings/discord"; status = i.discord_status }
    ∷ record { title = "Mail Settings"; path = "/settings/mail"; status = i.mail_status }
    ∷ record { title = "OIDC Settings"; path = "/settings/oidc"; status = i.oidc_status }
    ∷ record { title = "Storage Settings"; path = "/settings/storage"; status = i.storage_status }
    ∷ record { title = "User Management"; path = "/settings/users"; status = some "configured" }
    ∷ []

-- A tag: `color={getStatusColor(s || '')}` with the text `getStatusText(s || 'unknown')`.
unfoldable pub status_tag : Option String → String × String
unfolding status_color status_text
status_tag s = (status_color (or_text s ""), status_text (or_text s "unknown"))

-- The tags of the card "System Status", in order.
unfoldable pub system_status : SystemInfo → List (String × (String × String))
unfolding status_tag
system_status i =
    ("Database Connection", status_tag i.database_status)
    ∷ ("Mail Configuration", status_tag i.mail_status)
    ∷ ("Storage Configuration", status_tag i.storage_status)
    ∷ ("OIDC Authentication", status_tag i.oidc_status)
    ∷ ("Discord Bot", status_tag i.discord_status)
    ∷ []

abbrev is_text : String → Option String → Bool
is_text t none = false
is_text t (some s) = s == t

-- The alert at the end, and its link.
unfoldable pub oidc_alert : SystemInfo → Option String
oidc_alert i = if is_text "not_configured" i.oidc_status then some "/settings/oidc" else none

-- The button that loads the roles of a user is disabled without an ID, and the query runs by it only.
unfoldable pub roles_request : String → Option Request
roles_request user_id =
    if user_id == "" then none else some (send_empty get ("/users/" <> (user_id <> "/roles")))

-- Every category of the settings, and the alert's link, leads to a page that an administrator may
-- see.
pub settings_links-Shows :
    (i : SystemInfo) (me : Me)
    → includes (roles_of (some me)) "admin" ≡ true
    → All (λ c. Shows (declared routes c.path) me) (settings_categories i)
      × Shows (declared routes "/settings/oidc") me
unfolding settings_categories declared pass_guard
settings_links-Shows i me h = ground arith
