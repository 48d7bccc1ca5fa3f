-- ===== src/Tests/AssetPages.antt =====
-- The form and the page of an asset at work.
use helpdesk_go.Base.{◌≤◌, ◌≡◌, refl, String, Option, none, List, [], ◌∷◌}
use helpdesk_go.Assets.List
use helpdesk_go.Assets.List.{ListAsset}
use helpdesk_go.Assets.List.Laws.{times, clicks, deletions_asked}
use helpdesk_go.Assets.Detail.{active}
use helpdesk_go.Base.{◌≡◌, refl, List, [], ◌∷◌, some, none}
use helpdesk_go.Http.{api_fetch, World, replied, str, obj, field, done, Fields, log, message}
use helpdesk_go.Api.Upload.{lookup_field}
use helpdesk_go.Assets.Form.{
  Asset, submit, succeeds, invalidates_assets, throws, fails, done_text, failed_text, is_editing,
}
use helpdesk_go.Assets.Form.Laws.{day_of}
use helpdesk_go.Manager.{take_chars}
use Prim.Native.String.{[] as empty, ◌∷◌ as ◌∷∷◌}
use helpdesk_go.Assets.Form.Saves.{save_request, bare_answer_throws}
use helpdesk_go.Assets.Detail.{Event, opens, cancels, confirms, refused, run, mount, step}

abbrev camera : Asset
camera = record {
  fields = ("asset_tag", str "A-1") ∷ ("name", str "Camera") ∷ ("status", str "retired") ∷ [];
  purchase_date = some "2024-05-01T09:30:00Z";
  warranty_expiry = none;
}

-- The day of a date and its time.
abbrev first_ten : String → String
first_ten s = take_chars 10 s

abbrev day : Option String → Option String
day = day_of (λ s. s) first_ten

bought_on : day camera.purchase_date ≡ some "2024-05-01"
unfolding take_chars
bought_on = refl

abbrev answer : Fields
answer = field "id" (str "a1") (field "name" (str "Camera") done)

abbrev world : World
world = record {
  server = λ sent q. replied (record { status = 201; text = none; parsed = some (obj answer) });
  sent = [];
  slept = 0;
}

bare_answer_throws_example :
    ((submit none camera.fields world).0
      ≡ succeeds (done_text (is_editing none))
        ∷ invalidates_assets
        ∷ throws (message "Cannot read properties of undefined")
        ∷ fails (failed_text (is_editing none)) (message "Cannot read properties of undefined")
        ∷ [])
    × ((submit none camera.fields world).1 ≡ log (save_request none camera.fields) world)
unfolding api_fetch lookup_field
bare_answer_throws_example = bare_answer_throws none camera.fields world answer refl refl

abbrev deletion : List Event
deletion = opens ∷ cancels ∷ confirms ∷ opens ∷ confirms ∷ confirms ∷ refused ∷ []

one_deletion : (run mount deletion).sent ≡ 1
unfolding mount step
one_deletion = refl

abbrev listed : ListAsset
listed = record {
  id = "a1";
  asset_tag = "LP-1";
  name = "Laptop";
  status = active;
  condition = none;
  category_name = none;
  location = none;
  assigned_user = none;
}

-- Asked twice, cancelled once.
abbrev second_thoughts : List List.Event
second_thoughts =
    List.clicks_delete listed
    ∷ List.cancels
    ∷ List.clicks_delete listed
    ∷ List.confirms
    ∷ List.deleted 0
    ∷ []

deletions_asked_example :
    times "a1" (List.run List.mount second_thoughts).sent ≤ clicks "a1" second_thoughts
deletions_asked_example = deletions_asked "a1" second_thoughts
