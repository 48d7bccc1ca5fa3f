-- ===== src/Api/Internal.antt =====
-- The endpoints of web/internal/src/shared/api.ts, with the `api` object's methods.
use helpdesk_go.Base.{
  ℕ, Bool, String, ◌==◌, ◌<>◌, Option, none, some, List, [], ◌∷◌, or_text, if◌then◌else◌,
}
use helpdesk_go.Http.{
  Json, null, bool, num, str, arr, nil, get, post, patch, delete, Request, M, pure, catch, ◌>>=◌,
  Value, value, as_json, api_fetch, send_json, send_empty,
}

unfoldable pub fetch_requester : String → M Value
unfolding api_fetch
fetch_requester id = api_fetch as_json (send_empty get ("/requesters/" <> id))

-- An empty query is answered without a request.
unfoldable pub search_requesters : String → M Value
unfolding api_fetch
search_requesters query w =
    let search =
      api_fetch as_json (record (send_empty get "/requesters") { query = ("q", query) ∷ [] }) w in
    if query == "" then pure (value (arr nil)) w else search

unfoldable pub create_requester : String → String → M Value
unfolding api_fetch
create_requester email display_name =
    api_fetch as_json (
      send_json post "/requesters" (("email", str email) ∷ ("display_name", str display_name) ∷ []))

-- A field of an object literal whose value may be `undefined`: `JSON.stringify` leaves it out then.
abbrev pub optional : String → Option Json → List (String × Json) → List (String × Json)
optional key none rest = rest
optional key (some v) rest = (key, v) ∷ rest

abbrev pub text_json : Option String → Option Json
text_json none = none
text_json (some s) = some (str s)

abbrev pub num_json : Option ℕ → Option Json
num_json none = none
num_json (some n) = some (num n)

unfoldable pub update_requester : String → Option String → Option String → M Value
unfolding api_fetch
update_requester id email display_name = api_fetch as_json (
    send_json patch ("/requesters/" <> id)
      (optional "email" (text_json email) (optional "display_name" (text_json display_name) [])))

pub record NewTicket : Type 0 where
  pub title : String
  pub description : Option String
  pub requester_id : String
  pub priority : ℕ
  pub assignee_id : Option String

-- The random idempotency key is an argument.
abbrev pub create_ticket_request : String → NewTicket → Request
create_ticket_request key t =
    record (send_json post "/tickets" (
      ("title", str t.title)
      ∷ ("description", str (or_text t.description ""))
      ∷ ("requester_id", str t.requester_id)
      ∷ ("priority", num t.priority)
      ∷ optional "assignee_id" (text_json t.assignee_id) [])) {
        headers = ("Content-Type", "application/json") ∷ ("Idempotency-Key", key) ∷ [];
      }

unfoldable pub create_ticket : String → NewTicket → M Value
unfolding api_fetch
create_ticket key t = api_fetch as_json (create_ticket_request key t)

-- The result of an endpoint of type `Promise<void>`.
abbrev pub ignore : Value → M (Unit {0})
ignore v = pure tt

unfoldable pub update_ticket_status : String → String → M (Unit {0})
unfolding api_fetch
update_ticket_status id status =
    api_fetch as_json (send_json patch ("/tickets/" <> id) (("status", str status) ∷ [])) >>= ignore

-- `assignee_id?: string | null`: absent, null or a text.
pub record TicketPatch : Type 0 where
  pub assignee_id : Option (Option String)
  pub priority : Option ℕ

abbrev pub nullable : Option String → Json
nullable none = null
nullable (some s) = str s

abbrev pub assignee_json : Option (Option String) → Option Json
assignee_json none = none
assignee_json (some a) = some (nullable a)

unfoldable pub update_ticket : String → TicketPatch → M (Unit {0})
unfolding api_fetch
update_ticket id p =
    api_fetch as_json (
      send_json patch ("/tickets/" <> id) (
        optional "assignee_id" (assignee_json p.assignee_id)
          (optional "priority" (num_json p.priority) [])))
    >>= ignore

-- Reading the comments and the attachments never fails: an error gives the empty list.
unfoldable pub fetch_comments : String → M Value
unfolding api_fetch
fetch_comments ticket_id =
    catch (api_fetch as_json (send_empty get ("/tickets/" <> ticket_id <> "/comments")))
      (λ e. pure (value (arr nil)))

unfoldable pub add_comment : String → String → Bool → M (Unit {0})
unfolding api_fetch
add_comment ticket_id body is_internal =
    api_fetch as_json (
      send_json post ("/tickets/" <> ticket_id <> "/comments")
        (("body_md", str body) ∷ ("is_internal", bool is_internal) ∷ []))
    >>= ignore

unfoldable pub fetch_attachments : String → M Value
unfolding api_fetch
fetch_attachments ticket_id =
    catch (api_fetch as_json (send_empty get ("/tickets/" <> ticket_id <> "/attachments")))
      (λ e. pure (value (arr nil)))

unfoldable pub delete_attachment : String → String → M (Unit {0})
unfolding api_fetch
delete_attachment ticket_id att_id =
    api_fetch as_json (send_empty delete ("/tickets/" <> ticket_id <> "/attachments/" <> att_id))
    >>= ignore
