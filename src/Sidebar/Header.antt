-- ===== src/Sidebar/Header.antt =====
-- The header and the switcher of roles in web/internal/src/shared/SidebarLayout.tsx.
use helpdesk_go.Base.{
  literal, or_text-ne, ltb, length, ◌≡◌, ◌≢◌, refl, arith, eq_iff, nonempty, or_text, String, ◌==◌,
  Option, none, some, List, [], ◌∷◌, map, if◌then◌else◌,
}
use helpdesk_go.Http.{M, pure, ◌>>=◌}
use helpdesk_go.Access.{Me}
use helpdesk_go.Sidebar.{Role, agent, manager, admin, available_roles, do_logout, display_name}

-- `ROLE_LABELS`
abbrev pub role_labels : Role → String
role_labels agent = "Agent"
role_labels manager = "Manager"
role_labels admin = "Admin"

-- The switcher, where there is more than one role: the label and the role of each option.
unfoldable pub switcher : Option Me → Option (List (String × Role))
unfolding available_roles
switcher me =
    if ltb 1 (length (available_roles me))
    then some (map (λ r. (role_labels r, r)) (available_roles me))
    else none

-- The menu of the user: the key and the label of each item.
abbrev pub user_menu_items : List (String × String)
user_menu_items = ("settings", "Settings") ∷ ("logout", "Logout") ∷ []

-- `onClick` of that menu: where it leads, if anywhere.
unfoldable pub user_menu_click : String → M (Option String)
unfolding do_logout
user_menu_click key =
    if key == "logout" then (do_logout >>= λ path. pure (some path)) else pure none

-- The letter of the avatar; `initial` is the language's `charAt(0).toUpperCase()`.
unfoldable pub avatar : (initial : String → String) → Option Me → String
unfolding display_name
avatar initial me =
    if nonempty (display_name me) then or_text (some (initial (display_name me))) "?" else "?"

display_name-text : (me : Option Me) → display_name me ≢ ""
unfolding display_name
display_name-text none = literal "User" refl
display_name-text (some me) =
    or_text-ne me.display_name (or_text me.email "User")
      (or_text-ne me.email "User" (literal "User" refl))

-- The header always has a name, so while the language finds a first letter in a name, the avatar
-- shows the name's.
avatar-initial :
    (initial : String → String) (me : Option Me)
    → initial (display_name me) ≢ ""
    → avatar initial me ≡ initial (display_name me)
unfolding avatar
avatar-initial initial me h = ground (
  arith,
  display_name-text me,
  eq_iff (display_name me) "",
  eq_iff (initial (display_name me)) "",
)
