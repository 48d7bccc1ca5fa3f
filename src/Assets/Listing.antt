-- ===== src/Assets/Listing.antt =====
-- The list of assets and its filters, web/internal/src/components/assets/AssetList.tsx, and the
-- filters of the audit page, web/internal/src/components/assets/AssetAudit.tsx.
pub mod Laws
use helpdesk_go.Base.{
  ℕ, eqb, Bool, true, false, String, ◌==◌, ◌<>◌, Option, none, some, List, [], ◌∷◌, ◌++◌, map,
  if◌then◌else◌,
}
use helpdesk_go.Http.{Request, delete}
use helpdesk_go.Http.Convert.{decimal}
use helpdesk_go.Queries.Params.{given}
use helpdesk_go.Api.Generic.{without_data, no_options}

pub record Listing : Type 0 where
  pub search : String
  pub status_filter : List String
  pub page : ℕ
  pub page_size : ℕ

unfoldable pub initial : Listing
initial = record { search = ""; status_filter = []; page = 1; page_size = 20 }

-- `params` of the query, in the order in which they are set and appended.
unfoldable pub list_params : Listing → List (String × String)
list_params l =
    given "q" (some l.search)
    ++ (map (λ status. ("status", status)) l.status_filter
        ++ (("page", decimal l.page) ∷ ("limit", decimal l.page_size) ∷ []))

-- The pagination's `onChange`.
unfoldable pub change_page : ℕ → ℕ → Listing → Listing
change_page new_page new_size l =
    if eqb new_size l.page_size
    then record l { page = new_page }
    else record l { page = 1; page_size = new_size }

abbrev pub set_search : String → Listing → Listing
set_search s l = record l { search = s }

abbrev pub set_status_filter : List String → Listing → Listing
set_status_filter statuses l = record l { status_filter = statuses }

abbrev pub delete_request : String → Request
delete_request id = without_data delete ("/assets/" <> id) [] no_options

-- The filters of the audit page.
pub record Filters : Type 0 where
  pub asset_id : Option String
  pub user_id : Option String
  pub action : Option String
  pub date_range : Option (String × String)
  pub search : String

unfoldable pub clear_filters : Filters
clear_filters = record {
  asset_id = none;
  user_id = none;
  action = none;
  date_range = none;
  search = "";
}

abbrev pub range_params : Option (String × String) → List (String × String)
range_params none = []
range_params (some (from, to)) = ("start_date", from) ∷ ("end_date", to) ∷ []

unfoldable pub audit_params : Filters → List (String × String)
audit_params f =
    given "asset_id" f.asset_id
    ++ (given "user_id" f.user_id
        ++ (given "action" f.action
            ++ (range_params f.date_range ++ given "search" (some f.search))))

-- `getActionColor`, on an action in lower case.
unfoldable pub action_color : String → String
action_color a =
    if a == "create"
    then "green"
    else if a == "update"
    then "blue"
    else if a == "delete"
    then "red"
    else if a == "checkout"
    then "orange"
    else if a == "checkin"
    then "purple"
    else if a == "assign"
    then "cyan"
    else if a == "unassign"
    then "geekblue"
    else "default"
