-- ===== src/Assets/Audit.antt =====
-- The audit page of the assets, web/internal/src/components/assets/AssetAudit.tsx, beside the
-- parameters of its query: its queries, its filters as they are changed, its table, its time line
-- and its summary.
pub mod Laws
use helpdesk_go.Base.{
  ℕ, zero, suc, String, ◌==◌, ◌<>◌, ◌&&◌, or_text, truthy, Option, none, some, List, [], ◌∷◌, map,
  if◌then◌else◌,
}
use helpdesk_go.Http.{Json, null, obj, Result, ok, err, message, M, ◌>>=◌}
use helpdesk_go.Http.Convert.{decimal}
use helpdesk_go.Api.Generic.{no_options, api_get}
use helpdesk_go.Api.Upload.{lookup_field}
use helpdesk_go.Assets.Catalog.{read_data}
use helpdesk_go.Assets.Listing.{Filters, action_color, audit_params}

-- `handleFilterChange(key, value)`.
pub data Change : Type 0 where
  asset_id user_id action : Option String → Change
  date_range : Option (String × String) → Change
  search : String → Change

unfoldable pub handle_filter_change : Change → Filters → Filters
handle_filter_change (asset_id o) f = record f { asset_id = o }
handle_filter_change (user_id o) f = record f { user_id = o }
handle_filter_change (action o) f = record f { action = o }
handle_filter_change (date_range o) f = record f { date_range = o }
handle_filter_change (search s) f = record f { search = s }

-- `getActionIcon`, by the icon's label, on an action in lower case.
unfoldable pub action_icon : String → String
action_icon a =
    if a == "create"
    then "create"
    else if a == "update"
    then "update"
    else if a == "delete"
    then "delete"
    else if a == "checkout"
    then "checkout"
    else if a == "checkin"
    then "checkin"
    else if a == "assign"
    then "assign"
    else if a == "unassign"
    then "unassign"
    else "action"

pub record AuditEntry : Type 0 where
  pub asset_name : String
  pub asset_tag : String
  pub user_name : String
  pub action : String
  pub field_name : Option String
  pub old_value : Option String
  pub new_value : Option String
  pub notes : Option String
  pub timestamp : String
  pub ip_address : Option String

-- A point of the time line: its colour and icon, its two lines, and the change below them.
pub record TimelineItem : Type 0 where
  pub color : String
  pub dot : String
  pub heading : String
  pub byline : String
  pub change : Option String

-- Both values are shown where the field has a name; an absent one shows nothing.
abbrev pub timeline_change : AuditEntry → Option String
timeline_change e =
    if or_text e.field_name "" == ""
    then none
    else some (
        or_text e.field_name ""
        <> (": " <> (or_text e.old_value "" <> (" → " <> or_text e.new_value ""))))

pub first_items : ℕ → List AuditEntry → List AuditEntry
first_items zero es = []
first_items (suc n) [] = []
first_items (suc n) (e ∷ es) = e ∷ first_items n es

-- The cell "Changes": the field with its two values where there are all three, the notes otherwise.
pub data Changes : Type 0 where
  change : String → String → String → Changes
  remark : String → Changes

unfoldable pub changes_cell : AuditEntry → Changes
changes_cell e =
    if truthy e.field_name && (truthy e.old_value && truthy e.new_value)
    then change (or_text e.field_name "") (or_text e.old_value "") (or_text e.new_value "")
    else remark (or_text e.notes "-")

-- A row of the table, by its columns.
pub record Row : Type 0 where
  pub time : String × String
  pub asset : String × String
  pub tag : String × (String × String)
  pub user : String
  pub changes : Changes
  pub ip : Option String

-- `lower` and `upper` are the language's changes of case; `format` and `from_now` are the date
-- library's, by a pattern and relative to the present.
module _ (lower upper : String → String) (format : String → String → String)
    (from_now : String → String) where
  unfoldable pub timeline_item : AuditEntry → TimelineItem
  unfolding action_color action_icon
  timeline_item e = record {
    color = action_color (lower e.action);
    dot = action_icon (lower e.action);
    heading = e.asset_name <> (" (" <> (e.asset_tag <> ")"));
    byline = upper e.action <> (" by " <> (e.user_name <> (" • " <> from_now e.timestamp)));
    change = timeline_change e;
  }

  -- `auditHistory?.items?.slice(0, 20).map(...)`
  unfoldable pub timeline_items : Option (List AuditEntry) → List TimelineItem
  unfolding timeline_item first_items
  timeline_items none = []
  timeline_items (some es) = map timeline_item (first_items 20 es)

  unfoldable pub row : AuditEntry → Row
  unfolding action_color action_icon changes_cell
  row e = record {
    time = (format "MMM D, YYYY" e.timestamp, format "h:mm A" e.timestamp);
    asset = (e.asset_name, e.asset_tag);
    tag = (action_color (lower e.action), (action_icon (lower e.action), upper e.action));
    user = e.user_name;
    changes = changes_cell e;
    ip = e.ip_address;
  }

  -- The tags of the breakdown, by colour and text.
  unfoldable pub breakdown_tags : Option (List (String × ℕ)) → List (String × String)
  unfolding action_color
  breakdown_tags none = []
  breakdown_tags (some counts) =
      map (λ e. (action_color (lower e.0), e.0 <> (": " <> decimal e.1))) counts

pub record AuditSummary : Type 0 where
  pub total_events : ℕ
  pub events_last_30_days : ℕ
  pub most_active_user : String
  pub most_modified_asset : String

unfoldable pub summary_cards : AuditSummary → List (String × String)
summary_cards s =
    ("Total Events", decimal s.total_events)
    ∷ ("Last 30 Days", decimal s.events_last_30_days)
    ∷ ("Most Active User", s.most_active_user)
    ∷ ("Most Modified", s.most_modified_asset)
    ∷ []

-- The three queries of the page.
unfoldable pub load_history : Filters → M (Option Json)
unfolding api_get read_data
load_history f = api_get "/assets/audit" (audit_params f) no_options >>= λ v w. (read_data v, w)

unfoldable pub load_summary : M (Option Json)
unfolding api_get read_data
load_summary = api_get "/assets/audit/summary" [] no_options >>= λ v w. (read_data v, w)

-- `response.data.items`: `none` is `undefined`.
unfoldable pub read_items : Option Json → Result (Option Json)
unfolding lookup_field
read_items none = err (message "Cannot read properties of undefined")
read_items (some null) = err (message "Cannot read properties of null")
read_items (some (obj fs)) = ok (lookup_field "items" fs)
read_items (some _) = ok none

unfoldable pub load_assets : M (Option Json)
unfolding api_get read_data read_items
load_assets =
    api_get "/assets" (("limit", "1000") ∷ []) no_options >>= (λ v w. (read_data v, w)) >>= λ o w.
    (read_items o, w)

-- The options of the filter by asset: the value and the text.
unfoldable pub asset_options : Option (List (String × (String × String))) → List (String × String)
asset_options none = []
asset_options (some assets) = map (λ a. (a.0, a.1.0 <> (" (" <> (a.1.1 <> ")")))) assets

abbrev pub action_options : List (String × String)
action_options =
    ("create", "Create")
    ∷ ("update", "Update")
    ∷ ("delete", "Delete")
    ∷ ("checkout", "Checkout")
    ∷ ("checkin", "Checkin")
    ∷ ("assign", "Assign")
    ∷ ("unassign", "Unassign")
    ∷ []
