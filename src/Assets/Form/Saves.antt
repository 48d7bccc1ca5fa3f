-- ===== src/Assets/Form/Saves.antt =====
-- How a save of the form ends: the one request that it sends, and what the page does then.
use helpdesk_go.Base.{
  ◌≡◌, refl, arith, String, ◌<>◌, Option, none, some, List, [], ◌∷◌, if◌then◌else◌,
}
use helpdesk_go.Http.{
  Json, obj, Fields, Request, post, patch, World, value, ok, message, log, as_json, api_fetch,
  then_do,
}
use helpdesk_go.Http.Laws.{api_fetch-log, then_do-ok}
use helpdesk_go.Api.Generic.{object, with_data, no_options, api_post, api_patch}
use helpdesk_go.Api.Upload.{lookup_field}
use helpdesk_go.Assets.Catalog.{read_data}
use helpdesk_go.Assets.Form.{
  is_editing, save_asset, save_settled, go_to_asset, submit, succeeds, invalidates_assets, throws,
  fails, done_text, failed_text, navigation,
}

abbrev pub save_request : Option String → List (String × Json) → Request
save_request none fields = with_data post "/assets" (some (object fields)) no_options
save_request (some id) fields =
    if is_editing (some id)
    then with_data patch ("/assets/" <> id) (some (object fields)) no_options
    else with_data post "/assets" (some (object fields)) no_options

save_asset-fetch :
    (id : Option String) (fields : List (String × Json)) (w : World)
    → save_asset id fields w
      ≡ then_do (api_fetch as_json (save_request id fields) w) (λ v w'. (read_data v, w'))
unfolding save_asset api_post api_patch
save_asset-fetch none fields w = refl
save_asset-fetch (some id) fields w = ground arith

-- Where the server answers a save with the saved asset itself, as an object that has no property
-- `data`, the save is said to have succeeded, the lists of assets are made stale, and then reading
-- the asset's ID throws, so that the save is then said to have failed as well, and the page goes
-- nowhere. The save was sent once, as a change of the asset that is edited and as a new one
-- otherwise.
pub bare_answer_throws :
    (id : Option String) (fields : List (String × Json)) (w : World) (fs : Fields)
    → (api_fetch as_json (save_request id fields) w).0 ≡ ok (value (obj fs))
    → lookup_field "data" fs ≡ none
    → ((submit id fields w).0
        ≡ succeeds (done_text (is_editing id))
          ∷ invalidates_assets
          ∷ throws (message "Cannot read properties of undefined")
          ∷ fails (failed_text (is_editing id)) (message "Cannot read properties of undefined")
          ∷ [])
      × ((submit id fields w).1 ≡ log (save_request id fields) w)
unfolding submit save_settled navigation go_to_asset read_data
bare_answer_throws id fields w fs answer bare = ground (
  arith,
  save_asset-fetch id fields w,
  then_do-ok (λ v w'. (read_data v, w')) (api_fetch as_json (save_request id fields) w)
      (value (obj fs)) _ answer (api_fetch-log as_json (save_request id fields) w),
)
