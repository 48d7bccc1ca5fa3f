-- ===== src/Assets/Audit/Laws.antt =====
-- The audit page: its table against its time line, and the assets that its filter offers.
use helpdesk_go.Base.{
  ◌≡◌, arith, String, ◌&&◌, ◌<>◌, or_text, truthy, true, false, none, some, [], ◌∷◌,
}
use helpdesk_go.Http.{
  obj, Fields, Request, get, World, value, ok, err, message, log, as_json, api_fetch,
}
use helpdesk_go.Http.Laws.{api_fetch-log, then_do-ok}
use helpdesk_go.Api.Generic.{without_data, no_options, api_get}
use helpdesk_go.Api.Upload.{lookup_field}
use helpdesk_go.Assets.Catalog.{read_data}
use helpdesk_go.Assets.Audit.{
  AuditEntry, change, remark, changes_cell, timeline_change, load_assets, read_items,
}

-- A change that stands in the table stands in the time line, with the same field and values.
pub changes_cell-timeline_change :
    (e : AuditEntry) (f o n : String)
    → changes_cell e ≡ change f o n
    → timeline_change e ≡ some (f <> (": " <> (o <> (" → " <> n))))
unfolding changes_cell
changes_cell-timeline_change e f o n h = ground arith

-- A change of a field from nothing, or to nothing, is not in the table, which has the entry's notes in
-- its place; the time line has it, with nothing on the one side of the arrow.
pub one_sided_change_hidden :
    (e : AuditEntry)
    → truthy e.field_name ≡ true
    → truthy e.old_value && truthy e.new_value ≡ false
    → (changes_cell e ≡ remark (or_text e.notes "-"))
      × (timeline_change e
          ≡ some (
              or_text e.field_name ""
              <> (": " <> (or_text e.old_value "" <> (" → " <> or_text e.new_value "")))))
unfolding changes_cell
one_sided_change_hidden e h k = ground arith

abbrev pub assets_request : Request
assets_request = without_data get "/assets" (("limit", "1000") ∷ []) no_options

-- Where the server answers the question for the assets with an object that has no property `data`,
-- as it answers the list of assets with, the query rejects, and the filter offers no asset.
pub bare_list_rejects :
    (w : World) (fs : Fields)
    → (api_fetch as_json assets_request w).0 ≡ ok (value (obj fs))
    → lookup_field "data" fs ≡ none
    → load_assets w ≡ (err (message "Cannot read properties of undefined"), log assets_request w)
unfolding load_assets read_data read_items api_get
bare_list_rejects w fs answer bare = ground (
  arith,
  then_do-ok (λ v w'. (read_data v, w')) (api_fetch as_json assets_request w) (value (obj fs)) _
      answer (api_fetch-log as_json assets_request w),
)
