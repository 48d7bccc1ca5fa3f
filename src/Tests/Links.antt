-- ===== src/Tests/Links.antt =====
-- The links of the pages for users with one role and with two.
use helpdesk_go.Base.{refl, String, none, some, List, [], ◌∷◌, All}
use helpdesk_go.Access.{Me}
use helpdesk_go.Queue
use helpdesk_go.Manager.View.{ManagedTicket}
use helpdesk_go.Assets.List.{ListAsset}
use helpdesk_go.Assets.Detail
use helpdesk_go.Assets.Detail.{Status, active}
use helpdesk_go.Links.{
  Opens, TurnsAway, queue_links, filter_links, manager_links, asset_list_links, edit_links,
  saved_links, links-Open, manager_links_refused,
}

abbrev user_with : List String → Me
user_with roles = record {
  id = some "u1";
  external_id = none;
  email = some "u1@example.com";
  display_name = none;
  roles = some roles;
}

abbrev ticket : Queue.Ticket
ticket = record {
  id = "t1";
  number = "T-1";
  title = "Printer";
  requester = none;
  category = none;
  status = none;
  priority = none;
}

abbrev managed : ManagedTicket
managed = record {
  id = "t1";
  number = "T-1";
  title = none;
  description = none;
  status = none;
  assignee_id = none;
  requester = none;
  priority = none;
}

abbrev listed : ListAsset
listed = record {
  id = "a1";
  asset_tag = "LP-1";
  name = "Laptop";
  status = active;
  condition = none;
  category_name = none;
  location = none;
  assigned_user = none;
}

abbrev asset : Detail.Asset
asset = record {
  asset_tag = "LP-1";
  name = "Laptop";
  description = none;
  status = active;
  condition = none;
  category_name = none;
  location = none;
  manufacturer = none;
  model = none;
  serial_number = none;
  assigned_user = none;
  purchase_price = none;
  purchase_date = none;
  warranty_expiry = none;
  depreciation_rate = none;
  created_at = none;
  updated_at = none;
}

links-Open_example :
    All (Opens (user_with ("agent" ∷ "manager" ∷ []))) (queue_links ticket)
    × All (Opens (user_with ("agent" ∷ "manager" ∷ []))) filter_links
    × All (Opens (user_with ("agent" ∷ "manager" ∷ []))) (manager_links managed)
    × All (Opens (user_with ("agent" ∷ "manager" ∷ []))) (asset_list_links listed)
    × All (Opens (user_with ("agent" ∷ "manager" ∷ []))) (edit_links asset)
    × All (Opens (user_with ("agent" ∷ "manager" ∷ []))) saved_links
    × All
        (Opens (user_with ("agent" ∷ "manager" ∷ [])))
        ("/tickets" ∷ "/assets" ∷ "/assets/new" ∷ "/assets/:id" ∷ "/manager" ∷ [])
links-Open_example =
    links-Open (user_with ("agent" ∷ "manager" ∷ [])) ticket managed listed asset refl refl

manager_links_refused_example :
    Opens (user_with ("manager" ∷ [])) "/manager"
    × All (TurnsAway (user_with ("manager" ∷ []))) (manager_links managed)
    × Opens (user_with ("manager" ∷ [])) "/assets/new"
    × Opens (user_with ("manager" ∷ [])) "/assets/:id/edit"
    × All (TurnsAway (user_with ("manager" ∷ []))) saved_links
    × TurnsAway (user_with ("manager" ∷ [])) "/assets"
manager_links_refused_example =
    manager_links_refused (user_with ("manager" ∷ [])) managed refl refl refl
