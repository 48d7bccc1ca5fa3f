-- ===== src/Links.antt =====
-- Where the pages of the internal client lead, against the guards of the routes of
-- web/internal/src/App.tsx: the links of a list, of a page and of a form with the ID `:id`, which are
-- the paths that the routes are declared with. The sidebar's links stand in Sidebar/Roles.
use helpdesk_go.Base.{◌≡◌, false, String, some, List, [], ◌∷◌, All, arith, includes, map}
use helpdesk_go.Http.{obj, str, field, done}
use helpdesk_go.Access.{Me, roles_of}
use helpdesk_go.Access.Laws.{Holds}
use helpdesk_go.Access.Routes.{declared, pass_guard}
use helpdesk_go.Sidebar.Roles.{routes, Shows, Refuses, pathname_of}
use helpdesk_go.Queue
use helpdesk_go.Queue.Cells.{ticket_path, filter_path, filter_options}
use helpdesk_go.Manager.View.{ManagedTicket, managed_row}
use helpdesk_go.Assets.List.{ListAsset, Cell, link, plain, tag, cells}
use helpdesk_go.Assets.Detail
use helpdesk_go.Assets.Detail.View.{Shown, loading_text, not_found_text, asset_page, shown}
use helpdesk_go.Assets.Form.{Effect, goes, go_to_asset}

abbrev cell_targets : List (String × Cell) → List String
cell_targets [] = []
cell_targets ((title, link text path) ∷ cs) = path ∷ cell_targets cs
cell_targets ((title, plain text) ∷ cs) = cell_targets cs
cell_targets ((title, tag color text) ∷ cs) = cell_targets cs

abbrev shown_target : Shown → List String
shown_target loading_text = []
shown_target not_found_text = []
shown_target (asset_page name asset_tag edit_path) = edit_path ∷ []

abbrev goes_to : Effect → List String
goes_to (goes path) = path ∷ []
goes_to _ = []

-- The links of a page's own rows and headings.
abbrev pub queue_links : Queue.Ticket → List String
queue_links t = ticket_path (record t { id = ":id" }) ∷ []

-- Where the choices of the toolbar of the agent's list lead.
abbrev pub filter_links : List String
filter_links = map (λ o. pathname_of (filter_path o.0)) filter_options

abbrev pub manager_links : ManagedTicket → List String
manager_links t = (managed_row (record t { id = ":id" })).link ∷ []

abbrev pub asset_list_links : ListAsset → List String
asset_list_links a = cell_targets (cells (record a { id = ":id" }))

abbrev pub edit_links : Detail.Asset → List String
edit_links a = shown_target (shown false (some (":id", a)))

-- Where the form of an asset leads after a save that the server answers with the asset's ID.
abbrev pub saved_links : List String
saved_links = goes_to (go_to_asset (some (obj (field "id" (str ":id") done))))

abbrev pub Opens : Me → String → Type 0
Opens me path = Shows (declared routes path) me

abbrev pub TurnsAway : Me → String → Type 0
TurnsAway me path = Refuses (declared routes path) me

-- For a user who is an agent and a manager: the lists of tickets, of assets and of the manager, the
-- page of an asset and the form for a new one open, and so do the ticket of a row of the agent's list
-- and of the manager's, the choices of the agent's toolbar, the links of a row of the list of assets,
-- the form that the page of an asset links to, and the page to which a save leads.
pub links-Open :
    (me : Me) (t : Queue.Ticket) (m : ManagedTicket) (a : ListAsset) (d : Detail.Asset)
    → Holds me "agent"
    → Holds me "manager"
    → All (Opens me) (queue_links t)
      × All (Opens me) filter_links
      × All (Opens me) (manager_links m)
      × All (Opens me) (asset_list_links a)
      × All (Opens me) (edit_links d)
      × All (Opens me) saved_links
      × All (Opens me) ("/tickets" ∷ "/assets" ∷ "/assets/new" ∷ "/assets/:id" ∷ "/manager" ∷ [])
unfolding declared pass_guard managed_row cells shown go_to_asset filter_path
links-Open me t m a d ha hm = ground arith

-- A user who is an agent, and neither a manager nor an administrator, sees the list and the page of an
-- asset, and whatever the list's rows link to; but the button for a new asset and the page's link to
-- the form send that user to the landing page.
pub agent_links_refused :
    (me : Me) (a : ListAsset) (d : Detail.Asset)
    → Holds me "agent"
    → includes (roles_of (some me)) "manager" ≡ false
    → includes (roles_of (some me)) "admin" ≡ false
    → Opens me "/assets"
      × All (Opens me) (asset_list_links a)
      × Opens me "/assets/:id"
      × TurnsAway me "/assets/new"
      × All (TurnsAway me) (edit_links d)
unfolding declared pass_guard cells shown
agent_links_refused me a d h no_manager no_admin = ground arith

-- A user who is a manager, and neither an agent nor an administrator, sees the manager's queue and the
-- form of an asset; but the tickets of the queue, the asset after it is saved, and the list to which
-- the form's buttons lead all send that user to the landing page.
pub manager_links_refused :
    (me : Me) (m : ManagedTicket)
    → Holds me "manager"
    → includes (roles_of (some me)) "agent" ≡ false
    → includes (roles_of (some me)) "admin" ≡ false
    → Opens me "/manager"
      × All (TurnsAway me) (manager_links m)
      × Opens me "/assets/new"
      × Opens me "/assets/:id/edit"
      × All (TurnsAway me) saved_links
      × TurnsAway me "/assets"
unfolding declared pass_guard managed_row go_to_asset
manager_links_refused me m h no_agent no_admin = ground arith
