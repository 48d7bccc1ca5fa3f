-- ===== src/Assets/Import.antt =====
-- The import wizard, web/internal/src/components/assets/AssetImport.tsx: the state of the component,
-- its handlers, the controls that the page enables, and the requests in flight.
pub mod Laws
pub mod Moves
use helpdesk_go.Base.{
  runs, oldest, without_oldest, nth, drop_nth, ℕ, ltb, leb, eqb, Bool, true, false, ◌&&◌, ◌||◌, not,
  String, Option, none, some, List, [], ◌∷◌, length, take, ◌*◌, ◌/◌, ◌+◌, if◌then◌else◌, map,
}
use helpdesk_go.Http.{File}

pub record Issue : Type 0 where
  pub row : ℕ
  pub column : String
  pub message : String

pub record ValidationResult : Type 0 where
  pub valid : Bool
  pub errors : List Issue
  pub warnings : List Issue
  pub preview : List (List (String × String))

pub record ImportedAsset : Type 0 where
  pub asset_tag : String
  pub name : String
  pub status : String

-- An error or warning here has a row and a message only.
pub record ImportResult : Type 0 where
  pub total_rows : ℕ
  pub successful_imports : ℕ
  pub failed_imports : ℕ
  pub warnings : List (ℕ × String)
  pub errors : List (ℕ × String)
  pub imported_assets : List ImportedAsset

-- `currentStep`: 0, 1 and 2.
pub data Step : Type 0 where
  upload review complete : Step

pub record Wizard : Type 0 where
  pub current_step : Step
  pub uploaded_file : Option File
  pub validation_result : Option ValidationResult
  pub import_result : Option ImportResult
  pub uploading : Bool

-- A request that has been sent and not been answered.
pub data Job : Type 0 where
  validate : File → Job
  import_file : File → Job

unfoldable pub initial : Wizard
initial = record {
  current_step = upload;
  uploaded_file = none;
  validation_result = none;
  import_result = none;
  uploading = false;
}

-- Each handler returns the new state and the requests that it sends.
unfoldable pub handle_file_upload : File → Wizard → Wizard × List Job
handle_file_upload f w = (record w { uploaded_file = some f; uploading = true }, validate f ∷ [])

abbrev start_import : Option File → Wizard → Wizard × List Job
start_import none w = (w, [])
start_import (some f) w = (record w { uploading = true }, import_file f ∷ [])

unfoldable pub handle_import : Wizard → Wizard × List Job
handle_import w = start_import w.uploaded_file w

unfoldable pub handle_reset : Wizard → Wizard
handle_reset w = record w {
  current_step = upload;
  uploaded_file = none;
  validation_result = none;
  import_result = none;
}

unfoldable pub validate_success : ValidationResult → Wizard → Wizard
validate_success r w = record w {
  validation_result = some r;
  current_step = review;
  uploading = false;
}

unfoldable pub validate_error : Wizard → Wizard
validate_error w = record w { uploading = false }

unfoldable pub import_success : ImportResult → Wizard → Wizard
import_success r w = record w { import_result = some r; current_step = complete; uploading = false }

unfoldable pub import_error : Wizard → Wizard
import_error w = record w { uploading = false }

-- What the page shows in each step, with the parts that a test decides.
pub data View : Type 0 where
  upload_panel : (dragger_disabled validating : Bool) → View
  review_panel :
      (proceed_disabled loading passed : Bool)
      → (errors warnings : List Issue) → (preview : List (List (String × String))) → (more : Bool)
      → View
  complete_panel :
      (failures : Bool)
      → (successful failed total : ℕ) → (errors warnings : List (ℕ × String)) → List ImportedAsset
      → View
  nothing : View

abbrev review_view : Option ValidationResult → Bool → View
review_view none uploading = nothing
review_view (some r) uploading =
    review_panel (not r.valid || uploading) uploading r.valid r.errors r.warnings
      (take 10 r.preview) (ltb 10 (length r.preview))

abbrev complete_view : Option ImportResult → View
complete_view none = nothing
complete_view (some r) =
    complete_panel (ltb 0 r.failed_imports) r.successful_imports r.failed_imports r.total_rows
      r.errors r.warnings r.imported_assets

abbrev step_view : Step → Wizard → View
step_view upload w = upload_panel w.uploading w.uploading
step_view review w = review_view w.validation_result w.uploading
step_view complete w = complete_view w.import_result

unfoldable pub view : Wizard → View
view w = step_view w.current_step w

-- The columns of the preview table are the keys of its first row.
abbrev first_keys : List (List (String × String)) → List String
first_keys [] = []
first_keys (row ∷ rows) = map (λ e. e.0) row

unfoldable pub preview_columns : Option ValidationResult → List String
preview_columns none = []
preview_columns (some r) = first_keys r.preview

-- What the user can do, where the page shows the control and it is not disabled.
pub data Action : Type 0 where
  drops : File → Action
  proceeds resets : Action

abbrev pub can_do : View → Action → Bool
can_do (upload_panel disabled validating) (drops f) = not disabled
can_do (review_panel disabled loading passed errors warnings preview more) proceeds = not disabled
can_do (review_panel disabled loading passed errors warnings preview more) resets = true
can_do (complete_panel failures s f t errors warnings assets) resets = true
can_do _ _ = false

-- The page with the requests in flight, and two logs: the files that the server has answered for,
-- and the requests that have been sent.
pub record System : Type 0 where
  pub page : Wizard
  pub pending : List Job
  pub answered : List (File × ValidationResult)
  pub sent : List Job

abbrev pub send : Wizard × List Job → System → System
send (w, []) s = record s { page = w }
send (w, j ∷ js) s = record s { page = w; pending = j ∷ s.pending; sent = j ∷ s.sent }

abbrev pub act : Action → System → System
act (drops f) s = send (handle_file_upload f s.page) s
act proceeds s = send (handle_import s.page) s
act resets s = record s { page = handle_reset s.page }

-- One step: the user acts, or the oldest request in flight is answered, well or badly.
pub data Event : Type 0 where
  acts : Action → Event
  validated : ValidationResult → Event
  imported : ImportResult → Event
  fails : Event

abbrev answer : Option Job → Event → System → System
answer (some (validate f)) (validated r) s = record s {
  page = validate_success r s.page;
  pending = without_oldest s.pending;
  answered = (f, r) ∷ s.answered;
}
answer (some (validate f)) fails s = record s {
  page = validate_error s.page;
  pending = without_oldest s.pending;
}
answer (some (import_file f)) (imported r) s = record s {
  page = import_success r s.page;
  pending = without_oldest s.pending;
}
answer (some (import_file f)) fails s = record s {
  page = import_error s.page;
  pending = without_oldest s.pending;
}
answer _ _ s = s

unfoldable pub step : System → Event → System
unfolding view handle_file_upload handle_import handle_reset validate_success validate_error
    import_success import_error oldest without_oldest
step s (acts a) = if can_do (view s.page) a then act a s else s
step s e = answer (oldest s.pending) e s

unfoldable pub start : System
unfolding initial
start = record { page = initial; pending = []; answered = []; sent = [] }

abbrev pub run : System → List Event → System
run = runs step
