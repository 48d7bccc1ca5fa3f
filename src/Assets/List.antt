-- ===== src/Assets/List.antt =====
-- The list of assets beside its filters, web/internal/src/components/assets/AssetList.tsx: the cells of
-- its table, the menu of a row, the deletion with its dialog, and what the page shows on a failure.
pub mod Laws
use helpdesk_go.Base.{
  runs, nth, drop_nth, ℕ, suc, Bool, true, false, String, ◌<>◌, or_text, Option, none, some, List,
  [], ◌∷◌,
}
use helpdesk_go.Http.{Error, M, ◌>>=◌, pure}
use helpdesk_go.Http.Convert.{decimal}
use helpdesk_go.Api.Generic.{no_options, api_delete}
use helpdesk_go.Assets.Detail.{
  Status, Condition, status_colors, condition_colors, status_label, condition_label, AssignedUser,
  assigned_to,
}

-- The fields of an asset that the list shows.
pub record ListAsset : Type 0 where
  pub id : String
  pub asset_tag : String
  pub name : String
  pub status : Status
  pub condition : Option Condition
  pub category_name : Option String
  pub location : Option String
  pub assigned_user : Option AssignedUser

-- What a cell holds: a link with its target, a text, or a tag with its colour.
pub data Cell : Type 0 where
  link : String → String → Cell
  plain : String → Cell
  tag : String → String → Cell

abbrev pub condition_cell : Option Condition → Cell
condition_cell none = plain "-"
condition_cell (some c) = tag (condition_colors c) (condition_label (some c))

-- A row, by the titles of its columns; the last column has the row's menu.
unfoldable pub cells : ListAsset → List (String × Cell)
unfolding condition_colors status_colors
cells a =
    ("Asset Tag", link a.asset_tag ("/assets/" <> a.id))
    ∷ ("Name", plain a.name)
    ∷ ("Category", plain (or_text a.category_name "-"))
    ∷ ("Status", tag (status_colors a.status) (status_label a.status))
    ∷ ("Condition", condition_cell a.condition)
    ∷ ("Location", plain (or_text a.location "-"))
    ∷ ("Assigned To", plain (assigned_to a.assigned_user))
    ∷ []

-- What a click on an entry of the menu does; the entry to edit has no handler.
pub data MenuEffect : Type 0 where
  opens_window : String → MenuEffect
  asks : ListAsset → MenuEffect
  no_effect : MenuEffect

-- The menu of a row: the label of each entry and its effect.
unfoldable pub row_menu : ListAsset → List (String × MenuEffect)
row_menu a =
    ("View Details", opens_window ("/assets/" <> a.id))
    ∷ ("Edit", no_effect)
    ∷ ("Delete", asks a)
    ∷ []

-- `Modal.confirm` of `handleDelete`: the text of the dialog.
unfoldable pub confirm_text : ListAsset → String
confirm_text a =
    "Are you sure you want to delete \"" <> (a.name <> ("\" (" <> (a.asset_tag <> ")?")))

unfoldable pub delete_listed : String → M (Unit {0})
unfolding api_delete
delete_listed id = api_delete ("/assets/" <> id) no_options >>= λ _. pure tt

-- The dialog that is open, by its asset; the deletions in flight and those sent, the latest first; and how
-- often the lists of assets were made stale.
pub record Page : Type 0 where
  pub asked : Option ListAsset
  pub in_flight : List String
  pub sent : List String
  pub invalidated : ℕ

unfoldable pub mount : Page
mount = record { asked = none; in_flight = []; sent = []; invalidated = 0 }

-- `handleDelete`
unfoldable pub handle_delete : ListAsset → Page → Page
handle_delete a p = record p { asked = some a }

-- `onOk` of the dialog: `mutate`, and the dialog closes.
abbrev pub confirmed : Option ListAsset → Page → Page
confirmed none p = p
confirmed (some a) p = record p {
  asked = none;
  in_flight = a.id ∷ p.in_flight;
  sent = a.id ∷ p.sent;
}

-- The n-th deletion in flight is answered, well or badly.
abbrev pub answered : ℕ → Bool → Option String → Page → Page
answered n good none p = p
answered n true (some id) p = record p {
  in_flight = drop_nth n p.in_flight;
  invalidated = suc p.invalidated;
}
answered n false (some id) p = record p { in_flight = drop_nth n p.in_flight }

pub data Event : Type 0 where
  clicks_delete : ListAsset → Event
  cancels confirms : Event
  deleted refused : ℕ → Event

-- A row's menu is out of reach while a dialog is open.
unfoldable pub step : Page → Event → Page
unfolding handle_delete nth drop_nth
step p (clicks_delete a) = elim p.asked [ none ↦ handle_delete a p | some b ↦ p ]
step p cancels = record p { asked = none }
step p confirms = confirmed p.asked p
step p (deleted n) = answered n true (nth n p.in_flight) p
step p (refused n) = answered n false (nth n p.in_flight) p

abbrev pub run : Page → List Event → Page
run = runs step

-- `showTotal` of the pagination.
unfoldable pub show_total : ℕ → ℕ × ℕ → String
unfolding decimal
show_total total range =
    decimal range.0 <> ("-" <> (decimal range.1 <> (" of " <> (decimal total <> " assets"))))
