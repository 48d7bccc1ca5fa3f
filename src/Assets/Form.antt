-- ===== src/Assets/Form.antt =====
-- The form for a new asset and for an existing one, web/internal/src/components/assets/AssetForm.tsx.
pub mod Laws
pub mod Saves
use helpdesk_go.Base.{
  Bool, true, false, not, ◌&&◌, String, ◌==◌, ◌<>◌, nonempty, Option, none, some, List, [], ◌∷◌,
  ◌++◌, if◌then◌else◌,
}
use helpdesk_go.Http.{
  Json, null, str, obj, Error, message, Result, ok, err, M, ◌>>=◌, World, Value, Request, get,
  Fields,
}
use helpdesk_go.Http.Convert.{text_of}
use helpdesk_go.Api.Internal.{optional}
use helpdesk_go.Api.Upload.{lookup_field}
use helpdesk_go.Api.Generic.{object, no_options, without_data, api_post, api_patch}
use helpdesk_go.Assets.Catalog.{read_data}

-- `id !== 'new' && !!id`
unfoldable pub is_editing : Option String → Bool
is_editing none = false
is_editing (some id) = not (id == "new") && nonempty id

-- The query of the asset, which runs while one is edited.
unfoldable pub asset_query : Option String → Option Request
unfolding is_editing
asset_query none = none
asset_query (some id) =
    if is_editing (some id) then some (without_data get ("/assets/" <> id) [] no_options) else none

-- An asset as the page reads it: its two dates, and its other properties by name.
pub record Asset : Type 0 where
  pub fields : List (String × Json)
  pub purchase_date : Option String
  pub warranty_expiry : Option String

-- The form's values. `Date` is the date library's type.
pub record Values (Date : Type 0) : Type 0 where
  pub fields : List (String × Json)
  pub purchase_date : Option Date
  pub warranty_expiry : Option Date

-- The names of the form's fields but for the two dates.
unfoldable pub field_names : List String
field_names =
    "asset_tag" ∷ "name" ∷ "description" ∷ "category_id" ∷ "status" ∷ "condition" ∷ "manufacturer"
    ∷ "model" ∷ "serial_number" ∷ "location" ∷ "purchase_price" ∷ "depreciation_rate" ∷ []

pub value_of : String → List (String × Json) → Option Json
value_of name [] = none
value_of name ((k, v) ∷ rest) = if k == name then some v else value_of name rest

abbrev pub first_of : Option Json → Option Json → Option Json
first_of none o = o
first_of (some j) o = some j

-- `setFieldsValue` over the fields of the form: what is not given stays as it was.
pub merged : List String → List (String × Json) → List (String × Json) → List (String × Json)
merged [] given current = []
merged (name ∷ names) given current =
    optional name (first_of (value_of name given) (value_of name current))
      (merged names given current)

unfoldable pub initial_fields : List (String × Json)
initial_fields = ("status", str "active") ∷ ("condition", str "good") ∷ []

pub data Effect : Type 0 where
  succeeds : String → Effect
  invalidates_assets : Effect
  goes : String → Effect
  fails : String → Error → Effect
  throws : Error → Effect

module _ {Date : Type 0} (dayjs : String → Date) (format : Date → String) where
  unfoldable pub initial_values : Values Date
  unfolding initial_fields
  initial_values = record { fields = initial_fields; purchase_date = none; warranty_expiry = none }

  -- `x ? dayjs(x) : null`
  abbrev pub date_of : Option String → Option Date
  date_of none = none
  date_of (some s) = if s == "" then none else some (dayjs s)

  -- The effect, once the asset is there.
  unfoldable pub populate : Asset → Values Date → Values Date
  unfolding merged field_names
  populate a v = record {
    fields = merged field_names a.fields v.fields;
    purchase_date = date_of a.purchase_date;
    warranty_expiry = date_of a.warranty_expiry;
  }

  -- `x?.format('YYYY-MM-DD') || null`
  abbrev pub date_json : Option Date → Json
  date_json none = null
  date_json (some d) = if format d == "" then null else str (format d)

  unfoldable pub on_finish : Values Date → List (String × Json)
  on_finish v =
      v.fields
      ++ (("purchase_date", date_json v.purchase_date)
          ∷ ("warranty_expiry", date_json v.warranty_expiry)
          ∷ [])

-- The `mutationFn`; `none` is `undefined`.
unfoldable pub save_asset : Option String → List (String × Json) → M (Option Json)
unfolding is_editing api_post api_patch read_data
save_asset none fields =
    api_post "/assets" (some (object fields)) no_options >>= λ v w. (read_data v, w)
save_asset (some id) fields =
    (if is_editing (some id)
      then api_patch ("/assets/" <> id) (some (object fields)) no_options
      else api_post "/assets" (some (object fields)) no_options)
    >>= λ v w. (read_data v, w)

abbrev pub done_text : Bool → String
done_text editing = if editing then "Asset updated successfully" else "Asset created successfully"

abbrev pub failed_text : Bool → String
failed_text editing = if editing then "Failed to update asset: " else "Failed to create asset: "

-- `navigate(`/assets/${data.id}`)`
unfoldable pub go_to_asset : Option Json → Effect
unfolding lookup_field text_of
go_to_asset none = throws (message "Cannot read properties of undefined")
go_to_asset (some null) = throws (message "Cannot read properties of null")
go_to_asset (some (obj fs)) = goes ("/assets/" <> text_of (lookup_field "id" fs))
go_to_asset (some j) = goes "/assets/undefined"

-- The navigation ends `onSuccess`. Where it throws, the library of the mutation, which has caught the
-- error, calls `onError` with it.
unfoldable pub navigation : Bool → Effect → List Effect
navigation editing (throws e) = throws e ∷ fails (failed_text editing) e ∷ []
navigation editing effect = effect ∷ []

-- `onSuccess` and `onError`.
unfoldable pub save_settled : Bool → Result (Option Json) → List Effect
unfolding go_to_asset navigation
save_settled editing (ok saved) =
    succeeds (done_text editing) ∷ invalidates_assets ∷ navigation editing (go_to_asset saved)
save_settled editing (err e) = fails (failed_text editing) e ∷ []

unfoldable pub submit : Option String → List (String × Json) → World → List Effect × World
unfolding save_asset save_settled
submit id fields w = let (r, w') = save_asset id fields w in (save_settled (is_editing id) r, w')
