-- ===== src/Api/Requester.antt =====
-- The endpoints of web/requester/src/api.ts.
use helpdesk_go.Base.{false, String, ◌==◌, ◌<>◌, Option, none, some, List, [], ◌∷◌, if◌then◌else◌}
use helpdesk_go.Http.{
  Json, bool, str, get, post, patch, delete, M, ◌>>=◌, Value, requester_fetch, send_json,
  send_empty,
}
use helpdesk_go.Api.Internal.{optional, text_json, ignore}

-- `URLSearchParams.set`: the first entry of that key takes the value, and the others go.
abbrev pub drop_key : String → List (String × String) → List (String × String)
drop_key key [] = []
drop_key key ((k, v) ∷ rest) =
    let others = drop_key key rest in if k == key then others else (k, v) ∷ others

abbrev pub set_param : String → String → List (String × String) → List (String × String)
set_param key v [] = (key, v) ∷ []
set_param key v ((k, u) ∷ rest) =
    if k == key then (key, v) ∷ drop_key key rest else (k, u) ∷ set_param key v rest

-- The parameters of a page: those of the filter, and the cursor unless it is absent or empty.
abbrev pub page_params : Option String → List (String × String) → List (String × String)
page_params none query = query
page_params (some cursor) query = if cursor == "" then query else set_param "cursor" cursor query

unfoldable pub list_tickets : Option String → Option String → List (String × String) → M Value
unfolding requester_fetch
list_tickets token cursor query =
    requester_fetch token (record (send_empty get "/tickets") { query = page_params cursor query })

unfoldable pub get_ticket : String → Option String → M Value
unfolding requester_fetch
get_ticket id token = requester_fetch token (send_empty get ("/tickets/" <> id))

-- The body is any partial ticket.
unfoldable pub create_ticket : List (String × Json) → Option String → M Value
unfolding requester_fetch
create_ticket fields token = requester_fetch token (send_json post "/tickets" fields)

unfoldable pub list_comments : String → Option String → M Value
unfolding requester_fetch
list_comments id token = requester_fetch token (send_empty get ("/tickets/" <> id <> "/comments"))

-- A requester's comment is never internal.
unfoldable pub add_comment : String → String → Option String → M Value
unfolding requester_fetch
add_comment id content token = requester_fetch token (
    send_json post ("/tickets/" <> id <> "/comments")
      (("body_md", str content) ∷ ("is_internal", bool false) ∷ []))

unfoldable pub list_attachments : String → Option String → M Value
unfolding requester_fetch
list_attachments id token =
    requester_fetch token (send_empty get ("/tickets/" <> id <> "/attachments"))

unfoldable pub create_requester : String → String → Option String → M Value
unfolding requester_fetch
create_requester email display_name token =
    requester_fetch token (
      send_json post "/requesters" (("email", str email) ∷ ("display_name", str display_name) ∷ []))

unfoldable pub update_requester : String → Option String → Option String → Option String → M Value
unfolding requester_fetch
update_requester id email display_name token = requester_fetch token (
    send_json patch ("/requesters/" <> id)
      (optional "email" (text_json email) (optional "display_name" (text_json display_name) [])))

abbrev kb_query : Option String → List (String × String)
kb_query none = []
kb_query (some q) = if q == "" then [] else ("q", q) ∷ []

unfoldable pub list_kb_articles : Option String → Option String → M Value
unfolding requester_fetch
list_kb_articles q token =
    requester_fetch token (record (send_empty get "/kb") { query = kb_query q })

unfoldable pub get_system_info : M Value
unfolding requester_fetch
get_system_info = requester_fetch none (send_empty get "/system/info")

unfoldable pub create_kb_article : String → String → String → Option String → M Value
unfolding requester_fetch
create_kb_article slug title body_md token = requester_fetch token (
    send_json post "/kb"
      (("slug", str slug) ∷ ("title", str title) ∷ ("body_md", str body_md) ∷ []))

unfoldable pub delete_attachment : String → String → Option String → M (Unit {0})
unfolding requester_fetch
delete_attachment id att_id token =
    requester_fetch token (send_empty delete ("/tickets/" <> id <> "/attachments/" <> att_id))
    >>= ignore
