-- ===== src/Tickets/Detail.antt =====
-- The agent's page of one ticket, web/internal/src/components/agent/TicketDetail.tsx: its queries, the
-- events and mutations that make it ask again, the storage's switch, and the rows of its lists.
pub mod Laws
pub mod View
use helpdesk_go.Base.{
  ℕ, ◌≡◌, refl, ◌↔◌, arith, eq_iff, Bool, true, false, not, String, ◌==◌, ◌<>◌, nonempty, truthy,
  Option, none, some, List, [], ◌∷◌, ◌++◌, map, if◌then◌else◌,
}
use helpdesk_go.Http.{
  Json, null, bool, obj, Fields, field, done, Result, ok, err, Error, M, pure, catch, World, Value,
  value, undefined, blob, get, Request, send_empty, as_json, api_fetch,
}
use helpdesk_go.Http.Convert.{is_truthy, text_of}
use helpdesk_go.Api.Internal.{
  update_ticket_status, add_comment, update_requester, delete_attachment,
}
use helpdesk_go.Api.Upload.{lookup_field}
use helpdesk_go.Tickets.Attachments.{Pending}

-- What the page asks for again.
pub data Refetch : Type 0 where
  ticket comments attachments requester : Refetch

-- The queries of the page: whether each runs, and how often it is repeated.
unfoldable pub page_queries : String → Bool → List (Refetch × (Bool × Option ℕ))
page_queries id connected =
    let every = (if connected then none else some 5000) in
    (ticket, (nonempty id, every))
    ∷ (comments, (nonempty id, every))
    ∷ (attachments, (nonempty id, every))
    ∷ []

-- `ev.data?.id`
abbrev pub event_id : Option Json → Option Json
event_id (some (obj fs)) = lookup_field "id" fs
event_id _ = none

-- The handler of `ticket_updated`.
unfoldable pub ticket_updated : String → Option Json → List Refetch
unfolding lookup_field text_of
ticket_updated id payload =
    if text_of (event_id payload) == id then ticket ∷ comments ∷ attachments ∷ [] else []

-- `onSuccess` of a mutation asks again for one query; a failure only shows a message, or nothing.
abbrev pub on_success : {A : Type 0} → Refetch → Result A → List Refetch
on_success r (ok a) = r ∷ []
on_success r (err e) = []

abbrev pub mutated : {A : Type 0} → Refetch → M A → World → List Refetch × World
mutated r m w = let (x, w') = m w in (on_success r x, w')

unfoldable pub set_status : String → String → World → List Refetch × World
unfolding update_ticket_status
set_status id status = mutated ticket (update_ticket_status id status)

unfoldable pub comment : String → String → World → List Refetch × World
unfolding add_comment
comment id body = mutated comments (add_comment id body false)

-- `String(ticket?.requester_id)`: `none` is a ticket without a requester.
unfoldable pub save_requester :
    Option Json → Option String → Option String → World → List Refetch × World
unfolding update_requester text_of
save_requester requester_id email display_name =
    mutated requester (update_requester (text_of requester_id) email display_name)

-- The link "Delete" waits for the answer; a failure rejects, and nothing is asked again.
unfoldable pub remove_attachment : String → Json → World → List Refetch × World
unfolding delete_attachment text_of
remove_attachment id att_id = mutated attachments (delete_attachment id (text_of (some att_id)))

abbrev pub no_storage : Value
no_storage = value (obj (field "attachments" (bool false) done))

-- The query of the server's features, which takes any failure for a server without storage.
unfoldable pub load_features : M Value
unfolding api_fetch
load_features = catch (api_fetch as_json (send_empty get "/features")) (λ e. pure no_storage)

-- `features.data?.attachments`
abbrev pub storage_of : Value → Option Json
storage_of (value (obj fs)) = lookup_field "attachments" fs
storage_of _ = none

-- The button is disabled while the features are loading, which `none` stands for.
unfoldable pub can_upload : Option Value → Bool
unfolding lookup_field
can_upload none = false
can_upload (some v) = is_truthy (storage_of v)

-- A row of the list of attachments; `link` is the ID that "Download" and "Delete" use.
pub record Row : Type 0 where
  pub key : String
  pub filename : String
  pub link : Option String

pub record Stored : Type 0 where
  pub id : Json
  pub filename : String

unfoldable pub pending_row : Pending → Row
pending_row a = record { key = "pending-" <> a.filename; filename = a.filename; link = none }

unfoldable pub stored_row : Stored → Row
unfolding text_of
stored_row a = record {
  key = text_of (some a.id);
  filename = a.filename;
  link = some (text_of (some a.id));
}

unfoldable pub attachment_rows : List Pending → Option (List Stored) → List Row
unfolding pending_row stored_row
attachment_rows pending none = map pending_row pending
attachment_rows pending (some stored) = map pending_row pending ++ map stored_row stored
