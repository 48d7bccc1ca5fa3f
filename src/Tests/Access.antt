-- ===== src/Tests/Access.antt =====
-- Users with one role before the guards and the menus.
use helpdesk_go.Base.{◌≡◌, refl, ◌↔◌, inl, inr, List, [], ◌∷◌, String, some, none}
use helpdesk_go.Access.{Me, loaded, outlet}
use helpdesk_go.Access.Routes.{role, pass_guard}
use helpdesk_go.Access.Laws.{Allows, pass_guard-Allows}
use helpdesk_go.Sidebar.{Entry, agent, nav_config, concrete_items, selected_key}
use helpdesk_go.Sidebar.{pick, fits, nested_match}
use helpdesk_go.Sidebar.Reference.{longest, selected_key-longest}
use helpdesk_go.Sidebar.Selection.{Has, selected_key_exact}

abbrev user_with : List String → Me
user_with roles = record {
  id = some "u1";
  external_id = none;
  email = some "u1@example.com";
  display_name = none;
  roles = some roles;
}

pass_guard-Allows_example :
    (pass_guard (role "agent") (loaded (some (user_with ("admin" ∷ [])))) ≡ outlet)
    ↔ Allows (role "agent") (some (user_with ("admin" ∷ [])))
pass_guard-Allows_example = pass_guard-Allows (role "agent") (some (user_with ("admin" ∷ [])))

abbrev assigned : Entry
assigned = record { key = "tickets-assigned"; path = "/tickets?assignee=me" }

selected_key_exact_example :
    (x : Entry) × Has x (concrete_items (nav_config agent))
    × (x.path ≡ "/tickets?assignee=me")
    × (selected_key (nav_config agent) "/tickets" "?assignee=me" ≡ x.key)
unfolding concrete_items nav_config
selected_key_exact_example =
    selected_key_exact (nav_config agent) "/tickets" "?assignee=me" assigned
      (inr (inr (inr (inl refl)))) refl

my_tickets : selected_key (nav_config agent) "/tickets" "?assignee=me" ≡ "tickets-assigned"
unfolding selected_key nav_config
my_tickets = refl

selected_key-longest_example :
    selected_key (nav_config agent) "/tickets" "?assignee=me"
    ≡ pick
        (longest (fits "/tickets" "?assignee=me") (concrete_items (nav_config agent)))
        (nested_match "/tickets" "?assignee=me" (nav_config agent))
selected_key-longest_example = selected_key-longest (nav_config agent) "/tickets" "?assignee=me"
