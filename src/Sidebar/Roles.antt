-- ===== src/Sidebar/Roles.antt =====
-- The roles of the switcher, and whether the menu leads to pages that the role may see.
use Prim.Native.String.{slice}
use text.Mathlib.Text.{find?}
use helpdesk_go.Base.{
  ◌≡◌, ◌↔◌, ◌⊎◌, true, false, String, Option, none, some, List, ◌++◌, arith, includes, All, ◌==◌,
  if◌then◌else◌,
}
use helpdesk_go.Access.{Me, loaded, outlet, navigate, roles_of}
use helpdesk_go.Access.Routes.{
  Route, pass_guard, declared, agent_routes, admin_routes, manager_routes, shared_routes,
}
use helpdesk_go.Access.Laws.{Holds}
use helpdesk_go.Sidebar.{
  Role, agent, manager, admin, Entry, nav_config, concrete_items, available_roles, has_role,
  sync_role,
}

abbrev pub role_name : Role → String
role_name agent = "agent"
role_name manager = "manager"
role_name admin = "admin"

abbrev pub HoldsNone : Option Me → Type 0
HoldsNone me =
    (includes (roles_of me) "agent" ≡ false)
    × (includes (roles_of me) "manager" ≡ false)
    × (includes (roles_of me) "admin" ≡ false)

-- The roles of the switcher are those that the user holds, and `agent` for a user who holds none.
pub available_roles_iff :
    (me : Option Me) (r : Role)
    → (has_role (available_roles me) r ≡ true)
      ↔ ((includes (roles_of me) (role_name r) ≡ true) ⊎ ((r ≡ agent) × HoldsNone me))
unfolding available_roles has_role
available_roles_iff me agent = (λ h. ground arith, λ h. ground arith)
available_roles_iff me manager = (λ h. ground arith, λ h. ground arith)
available_roles_iff me admin = (λ h. ground arith, λ h. ground arith)

-- After the effect has run, the active role is one of those offered, and a role that is offered stays.
pub sync_role-available :
    (me : Option Me) (active : Role)
    → (has_role (available_roles me) (sync_role (available_roles me) active) ≡ true)
      × (has_role (available_roles me) active ≡ true
          → sync_role (available_roles me) active ≡ active)
unfolding sync_role available_roles has_role
sync_role-available me active = ground arith

abbrev pub routes : List Route
routes = shared_routes ++ (agent_routes ++ (admin_routes ++ manager_routes))

-- The part of a link before its query.
abbrev pub pathname_of : String → String
pathname_of p = elim (find? p "?") [ none ↦ p | some i ↦ slice p 0 i ]

abbrev pub Shows : Option Route → Me → Type 0
Shows none me = ⊥
Shows (some r) me = pass_guard r.guard (loaded (some me)) ≡ outlet

-- The page of a menu entry exists, and its guard lets the user pass.
abbrev pub Opens : Me → Entry → Type 0
Opens me e = Shows (declared routes (pathname_of e.path)) me

-- Every entry of the agent's menu leads to a page that an agent may see.
pub agent_menu-Opens :
    (me : Me) → Holds me "agent" → All (Opens me) (concrete_items (nav_config agent))
unfolding declared nav_config concrete_items pass_guard
agent_menu-Opens me h = ground arith

-- Every entry of the administrator's menu leads to a page that an administrator may see.
pub admin_menu-Opens :
    (me : Me) → Holds me "admin" → All (Opens me) (concrete_items (nav_config admin))
unfolding declared nav_config concrete_items pass_guard
admin_menu-Opens me h = ground arith

abbrev pub Refuses : Option Route → Me → Type 0
Refuses none me = ⊥
Refuses (some r) me = pass_guard r.guard (loaded (some me)) ≡ navigate "/"

abbrev pub ManagerEntry : Me → Entry → Type 0
ManagerEntry me e =
    if e.key == "assets-dashboard"
    then Refuses (declared routes (pathname_of e.path)) me
    else Opens me e

-- The manager's menu offers a user who is a manager and neither an agent nor an administrator the
-- asset dashboard, whose guard sends that user to the landing page; every other entry opens.
pub manager_menu_refused :
    (me : Me)
    → Holds me "manager"
    → includes (roles_of (some me)) "agent" ≡ false
    → includes (roles_of (some me)) "admin" ≡ false
    → All (ManagerEntry me) (concrete_items (nav_config manager))
unfolding declared nav_config concrete_items pass_guard
manager_menu_refused me h no_agent no_admin = ground arith
