-- ===== src/Assets/Detail.antt =====
-- The page of one asset, web/internal/src/components/assets/AssetDetail.tsx: its requests, the dialog
-- that confirms a deletion, and the texts that it shows.
pub mod Laws
pub mod Cells
pub mod View
use helpdesk_go.Base.{
  runs, oldest, without_oldest, nth, drop_nth, ℕ, zero, suc, eqb, Bool, true, false, ◌&&◌, String,
  ◌==◌, ◌<>◌, nonempty, truthy, or_text, Option, none, some, List, [], ◌∷◌, if◌then◌else◌, not,
}
use helpdesk_go.Http.{
  Json, null, arr, Items, nil, Result, ok, err, M, ◌>>=◌, pure, Request, get, delete,
}
use helpdesk_go.Http.Convert.{decimal}
use helpdesk_go.Api.Generic.{no_options, without_data, api_get, api_delete}
use helpdesk_go.Assets.Catalog.{read_data}

abbrev pub given_id : Option String → Option String
given_id none = none
given_id (some id) = if id == "" then none else some id

abbrev at : String → Option String → Option Request
at suffix none = none
at suffix (some id) = some (without_data get ("/assets/" <> (id <> suffix)) [] no_options)

-- The three queries, by their keys; they run where the route has an ID.
unfoldable pub detail_queries : Option String → List (String × Option Request)
detail_queries id =
    ("asset", at "" (given_id id))
    ∷ ("asset-audit", at "/audit" (given_id id))
    ∷ ("asset-relationships", at "/relationships" (given_id id))
    ∷ []

-- `(response as any).data || []`, for the relationships, which are an array.
abbrev pub or_nothing : Option Json → Json
or_nothing none = arr nil
or_nothing (some null) = arr nil
or_nothing (some j) = j

unfoldable pub load_relationships : String → M Json
unfolding api_get read_data
load_relationships id =
    api_get ("/assets/" <> (id <> "/relationships")) [] no_options
    >>= (λ v w. (read_data v, w))
    >>= λ o. pure (or_nothing o)

unfoldable pub delete_asset : String → M (Unit {0})
unfolding api_delete
delete_asset id = api_delete ("/assets/" <> id) no_options >>= λ _. pure tt

-- The dialog, the deletions in flight and those sent, and how often the dialog was opened.
pub record Page : Type 0 where
  pub delete_modal_visible : Bool
  pub in_flight : ℕ
  pub sent : ℕ
  pub left : Bool

unfoldable pub mount : Page
mount = record { delete_modal_visible = false; in_flight = 0; sent = 0; left = false }

-- `handleDelete`
unfoldable pub handle_delete : Page → Page
handle_delete p = record p {
  delete_modal_visible = false;
  in_flight = suc p.in_flight;
  sent = suc p.sent;
}

pub data Event : Type 0 where
  opens cancels confirms : Event
  deleted refused : Event

-- `onSuccess` navigates to the list, and `onError` shows a message.
abbrev pub settled : ℕ → Bool → Page → Page
settled zero good p = p
settled (suc n) good p = record p { in_flight = n; left = if good then true else p.left }

-- A page that has been left has no buttons; the dialog's exist while it is open.
unfoldable pub step : Page → Event → Page
unfolding handle_delete
step p opens = if p.left then p else record p { delete_modal_visible = true }
step p cancels = record p { delete_modal_visible = false }
step p confirms = if p.delete_modal_visible && not p.left then handle_delete p else p
step p deleted = settled p.in_flight true p
step p refused = settled p.in_flight false p

abbrev pub run : Page → List Event → Page
run = runs step

pub data Status : Type 0 where
  active inactive maintenance retired disposed : Status

pub data Condition : Type 0 where
  excellent good fair poor broken : Condition

unfoldable pub status_colors : Status → String
status_colors active = "green"
status_colors inactive = "default"
status_colors maintenance = "orange"
status_colors retired = "red"
status_colors disposed = "red"

unfoldable pub condition_colors : Condition → String
condition_colors excellent = "green"
condition_colors good = "blue"
condition_colors fair = "orange"
condition_colors poor = "red"
condition_colors broken = "red"

-- `toUpperCase()` of both.
abbrev pub status_label : Status → String
status_label active = "ACTIVE"
status_label inactive = "INACTIVE"
status_label maintenance = "MAINTENANCE"
status_label retired = "RETIRED"
status_label disposed = "DISPOSED"

abbrev pub condition_label : Option Condition → String
condition_label none = "-"
condition_label (some excellent) = "EXCELLENT"
condition_label (some good) = "GOOD"
condition_label (some fair) = "FAIR"
condition_label (some poor) = "POOR"
condition_label (some broken) = "BROKEN"

pub record AssignedUser : Type 0 where
  pub display_name : Option String
  pub email : String

pub record Asset : Type 0 where
  pub asset_tag : String
  pub name : String
  pub description : Option String
  pub status : Status
  pub condition : Option Condition
  pub category_name : Option String
  pub location : Option String
  pub manufacturer : Option String
  pub model : Option String
  pub serial_number : Option String
  pub assigned_user : Option AssignedUser
  pub purchase_price : Option ℕ
  pub purchase_date : Option String
  pub warranty_expiry : Option String
  pub depreciation_rate : Option ℕ
  pub created_at : Option String
  pub updated_at : Option String

abbrev pub assigned_to : Option AssignedUser → String
assigned_to none = "-"
assigned_to (some u) = or_text u.display_name u.email

abbrev pub rate_text : Option ℕ → String
rate_text none = "-"
rate_text (some n) = if eqb n 0 then "-" else decimal n <> "%"

pub record AuditEntry : Type 0 where
  pub field_name : Option String
  pub old_value : Option String
  pub new_value : Option String
  pub notes : Option String

-- The column "Changes": a changed field with its two values where all three are texts that are not
-- empty, the notes otherwise.
pub data Changes : Type 0 where
  change : String → String → String → Changes
  remark : String → Changes

abbrev change_or : String → Option String → Option String → Option String → Changes
change_or rest (some f) (some o) (some n) =
    if nonempty f && (nonempty o && nonempty n) then change f o n else remark rest
change_or rest _ _ _ = remark rest

unfoldable pub changes_cell : AuditEntry → Changes
changes_cell e = change_or (or_text e.notes "-") e.field_name e.old_value e.new_value

-- `usd` is the browser's currency format, `day` the date library's.
module _ (usd : ℕ → String) (day : String → String) where
  unfoldable pub format_currency : Option ℕ → String
  format_currency none = "-"
  format_currency (some n) = if eqb n 0 then "-" else usd n

  unfoldable pub format_date : Option String → String
  format_date none = "-"
  format_date (some s) = if s == "" then "-" else day s

  -- The descriptions of the tab "Details": the label and the text of each.
  unfoldable pub details : Asset → List (String × String)
  unfolding format_currency format_date
  details a =
      ("Asset Tag", a.asset_tag)
      ∷ ("Name", a.name)
      ∷ ("Description", or_text a.description "-")
      ∷ ("Status", status_label a.status)
      ∷ ("Condition", condition_label a.condition)
      ∷ ("Category", or_text a.category_name "-")
      ∷ ("Location", or_text a.location "-")
      ∷ ("Manufacturer", or_text a.manufacturer "-")
      ∷ ("Model", or_text a.model "-")
      ∷ ("Serial Number", or_text a.serial_number "-")
      ∷ ("Assigned To", assigned_to a.assigned_user)
      ∷ ("Purchase Price", format_currency a.purchase_price)
      ∷ ("Purchase Date", format_date a.purchase_date)
      ∷ ("Warranty Expiry", format_date a.warranty_expiry)
      ∷ ("Depreciation Rate", rate_text a.depreciation_rate)
      ∷ ("Created", format_date a.created_at)
      ∷ ("Last Updated", format_date a.updated_at)
      ∷ []
