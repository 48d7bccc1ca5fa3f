-- ===== src/Assets/Catalog.antt =====
-- The page of asset categories, web/internal/src/components/assets/AssetCategories.tsx.
pub mod Laws
pub mod View
use helpdesk_go.Base.{
  runs, oldest, without_oldest, nth, drop_nth, ℕ, zero, suc, ltb, Bool, true, false, String, ◌<>◌,
  Option, none, some, List, [], ◌∷◌, if◌then◌else◌,
}
use helpdesk_go.Http.{
  Json, str, obj, null, Value, value, undefined, blob, Error, message, Result, ok, err, M, ◌>>=◌,
  Request, patch, post, delete,
}
use helpdesk_go.Api.Internal.{optional, text_json}
use helpdesk_go.Api.Upload.{lookup_field}
use helpdesk_go.Api.Generic.{object, with_data, without_data, no_options, api_get}

pub record Category : Type 0 where
  pub id : String
  pub name : String
  pub description : Option String
  pub asset_count : Option ℕ

pub record FormData : Type 0 where
  pub name : String
  pub description : Option String

-- `(response as any).data`: `none` is `undefined`.
unfoldable pub read_data : Value → Result (Option Json)
unfolding lookup_field
read_data (value (obj fs)) = ok (lookup_field "data" fs)
read_data (value null) = err (message "Cannot read properties of null")
read_data (value _) = ok none
read_data undefined = err (message "Cannot read properties of undefined")
read_data blob = ok none

unfoldable pub list_categories : M (Option Json)
unfolding api_get read_data
list_categories = api_get "/asset-categories" [] no_options >>= λ v w. (read_data v, w)

-- What the page sends: a save of a new category, one of an existing category, or a deletion.
pub data Job : Type 0 where
  create : FormData → Job
  update : Category → FormData → Job
  remove : Category → Job

abbrev pub form_fields : FormData → List (String × Json)
form_fields f = ("name", str f.name) ∷ optional "description" (text_json f.description) []

unfoldable pub job_request : Job → Request
job_request (create f) =
    with_data post "/asset-categories" (some (object (form_fields f))) no_options
job_request (update c f) =
    with_data patch ("/asset-categories/" <> c.id) (some (object (form_fields f))) no_options
job_request (remove c) = without_data delete ("/asset-categories/" <> c.id) [] no_options

pub record Page : Type 0 where
  pub modal_visible : Bool
  pub editing : Option Category

unfoldable pub initial : Page
initial = record { modal_visible = false; editing = none }

unfoldable pub handle_open_modal : Option Category → Page → Page
handle_open_modal c p = record p { editing = c; modal_visible = true }

unfoldable pub handle_close_modal : Page → Page
handle_close_modal p = record p { modal_visible = false; editing = none }

-- The `mutationFn` of the save, with the category that is being edited.
abbrev pub save_job : Option Category → FormData → Job
save_job none f = create f
save_job (some c) f = update c f

abbrev pub has_assets : Option ℕ → Bool
has_assets none = false
has_assets (some n) = ltb 0 n

-- `handleDelete`: a category with assets only gives a warning.
unfoldable pub handle_delete : Category → List Job
handle_delete c = if has_assets c.asset_count then [] else remove c ∷ []

-- The page, the jobs in flight and those sent, the latest first of each.
pub record System : Type 0 where
  pub page : Page
  pub pending : List Job
  pub sent : List Job

abbrev pub send : List Job → System → System
send [] s = s
send (j ∷ js) s = record s { pending = j ∷ s.pending; sent = j ∷ s.sent }

pub data Event : Type 0 where
  opens : Option Category → Event
  closes : Event
  submits : FormData → Event
  deletes : Category → Event
  answered : Bool → Event

-- `onSuccess` of the save closes the dialog; that of the deletion, and both failures, leave it.
abbrev pub settle : Option Job → Bool → Page → Page
settle (some (create f)) true p = handle_close_modal p
settle (some (update c f)) true p = handle_close_modal p
settle (some (remove c)) true p = p
settle (some j) false p = p
settle none b p = p

-- The form is submitted from the open dialog; the oldest job in flight is answered, well or badly.
unfoldable pub step : System → Event → System
unfolding handle_open_modal handle_close_modal handle_delete oldest without_oldest
step s (opens c) = record s { page = handle_open_modal c s.page }
step s closes = record s { page = handle_close_modal s.page }
step s (submits f) = if s.page.modal_visible then send (save_job s.page.editing f ∷ []) s else s
step s (deletes c) = send (handle_delete c) s
step s (answered good) = record s {
  page = settle (oldest s.pending) good s.page;
  pending = without_oldest s.pending;
}

unfoldable pub start : System
unfolding initial
start = record { page = initial; pending = []; sent = [] }

abbrev pub run : System → List Event → System
run = runs step
