-- ===== src/Assets/Bulk.antt =====
-- The page of bulk operations, web/internal/src/components/assets/BulkOperations.tsx: the selection,
-- the dialog, the update with its guards, and the import.
pub mod Laws
pub mod Export
pub mod View
use helpdesk_go.Base.{
  runs, oldest, without_oldest, nth, drop_nth, ℕ, zero, suc, Bool, true, false, String, ◌==◌, ◌||◌,
  Option, none, some, List, [], ◌∷◌, ◌++◌, truthy, if◌then◌else◌,
}
use helpdesk_go.Http.{
  Json, str, arr, obj, Items, nil, item, Fields, done, field, Request, File, patch, post,
}
use helpdesk_go.Queries.Params.{given}
use helpdesk_go.Api.Internal.{optional, text_json}
use helpdesk_go.Api.Generic.{object, form_data, with_data, no_options}

pub record Values : Type 0 where
  pub status : Option String
  pub condition : Option String
  pub location : Option String
  pub category_id : Option String
  pub notes : Option String

unfoldable pub updates_of : Values → List (String × String)
updates_of v =
    given "status" v.status
    ++ (given "condition" v.condition
        ++ (given "location" v.location ++ given "category_id" v.category_id))

pub ids_json : List String → Items
ids_json [] = nil
ids_json (id ∷ ids) = item (str id) (ids_json ids)

pub updates_json : List (String × String) → Fields
updates_json [] = done
updates_json ((key, v) ∷ rest) = field key (str v) (updates_json rest)

unfoldable pub bulk_request : List String → List (String × String) → Option String → Request
unfolding ids_json updates_json
bulk_request ids updates notes =
    with_data patch "/assets/bulk-update"
      (some (
        object (
          ("asset_ids", arr (ids_json ids))
          ∷ ("updates", obj (updates_json updates))
          ∷ optional "notes" (text_json notes) [])))
      no_options

pub data Submission : Type 0 where
  no_asset no_field : Submission
  update : List String → List (String × String) → Option String → Submission

-- `handleBulkUpdate`: a warning, or what is sent.
unfoldable pub handle_bulk_update : Values → List String → Submission
unfolding updates_of
handle_bulk_update v [] = no_asset
handle_bulk_update v (id ∷ ids) = elim (updates_of v) [
  | [] ↦ no_field
  | u ∷ us ↦ update (id ∷ ids) (u ∷ us) v.notes
]

pub record ImportProgress : Type 0 where
  pub total : ℕ
  pub processed : ℕ
  pub errors : List (ℕ × String)
  pub warnings : List (ℕ × String)

pub record Bulk : Type 0 where
  pub selected_assets : List String
  pub modal_visible : Bool
  pub import_progress : Option ImportProgress
  pub uploading : Bool

unfoldable pub initial : Bulk
initial = record {
  selected_assets = [];
  modal_visible = false;
  import_progress = none;
  uploading = false;
}

unfoldable pub update_success : Bulk → Bulk
update_success b = record b { modal_visible = false; selected_assets = [] }

unfoldable pub import_success : ImportProgress → Bulk → Bulk
import_success p b = record b { import_progress = some p; uploading = false }

unfoldable pub import_error : Bulk → Bulk
import_error b = record b { uploading = false; import_progress = none }

-- `beforeUpload`: whether the widget goes on to upload the file. Both of its branches say no.
unfoldable pub before_upload : File → Bool
before_upload f =
    if f.mime == "text/csv"
      || f.mime == "application/vnd.openxmlformats-officedocument.spreadsheetml.sheet"
    then false
    else false

-- What `importAssetsMutation` sends for a form with this file.
unfoldable pub import_request : File → Request
import_request f =
    with_data post "/assets/import" (some (form_data f))
      (record no_options { headers = some (("Content-Type", "multipart/form-data") ∷ []) })

-- The page, the number of updates in flight, and those sent, the latest first.
pub record System : Type 0 where
  pub page : Bulk
  pub in_flight : ℕ
  pub sent : List Submission

pub data Event : Type 0 where
  selects : List String → Event
  opens cancels : Event
  submits : Values → Event
  updated refused : Event
  imported : ImportProgress → Event
  import_failed : Event

abbrev pub submitted : Submission → System → System
submitted no_asset s = s
submitted no_field s = s
submitted (update ids us notes) s = record s {
  in_flight = suc s.in_flight;
  sent = update ids us notes ∷ s.sent;
}

abbrev open_dialog : List String → Bulk → Bulk
open_dialog [] b = b
open_dialog (id ∷ ids) b = record b { modal_visible = true }

abbrev pub landed : ℕ → (Bulk → Bulk) → System → System
landed zero f s = s
landed (suc n) f s = record s { page = f s.page; in_flight = n }

-- The button that opens the dialog is disabled without a selection; an answer comes to an update in
-- flight.
unfoldable pub step : System → Event → System
unfolding handle_bulk_update update_success import_success import_error
step s (selects ids) = record s { page = record s.page { selected_assets = ids } }
step s opens = record s { page = open_dialog s.page.selected_assets s.page }
step s cancels = record s { page = record s.page { modal_visible = false } }
step s (submits v) =
    if s.page.modal_visible then submitted (handle_bulk_update v s.page.selected_assets) s else s
step s updated = landed s.in_flight update_success s
step s refused = landed s.in_flight (λ b. b) s
step s (imported p) = record s { page = import_success p s.page }
step s import_failed = record s { page = import_error s.page }

unfoldable pub start : System
unfolding initial
start = record { page = initial; in_flight = 0; sent = [] }

abbrev pub run : System → List Event → System
run = runs step
