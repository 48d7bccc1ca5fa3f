-- ===== src/Users/Panel.antt =====
-- The panel of roles beside the list of users, web/internal/src/components/admin/AdminUsers.tsx.
use helpdesk_go.Base.{
  Bool, true, false, not, nonempty, or_text, String, Option, none, some, List, [], ◌∷◌,
}
use helpdesk_go.Users.{User, Page}

-- The columns of the list, by title and field.
abbrev pub columns : List (String × String)
columns =
    ("Name", "display_name")
    ∷ ("Email", "email")
    ∷ ("Username", "username")
    ∷ ("External ID", "external_id")
    ∷ []

-- `a || b` of two texts that may be absent: the second is what it is.
abbrev pub or_else : Option String → Option String → Option String
or_else none b = b
or_else (some a) b = elim (nonempty a) [ true ↦ some a | false ↦ b ]

-- The heading and the line below it.
unfoldable pub heading : User → String
heading u = or_text u.display_name (or_text u.email (or_text u.username u.id))

unfoldable pub subheading : User → Option String
subheading u = or_else u.email (or_else u.username u.external_id)

-- A tag for each role that can be taken away; the button that adds one is disabled without a choice.
pub data Panel : Type 0 where
  asks_to_select : Panel
  role_panel :
      (heading : String)
      → (subheading : Option String) → (tags : List String) → (add_disabled : Bool) → Panel

abbrev panel_of : Option User → String → Panel
panel_of none new_role = asks_to_select
panel_of (some u) new_role = role_panel (heading u) (subheading u) u.roles (not (nonempty new_role))

unfoldable pub panel : Page → Panel
unfolding heading subheading
panel p = panel_of p.selected p.new_role
