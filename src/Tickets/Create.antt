-- ===== src/Tickets/Create.antt =====
-- The mutations of the two "New Ticket" modals of the internal client,
-- web/internal/src/components/agent/CreateTicketModal.tsx and
-- web/internal/src/components/manager/CreateTicketModal.tsx.
use helpdesk_go.Base.{
  ℕ, Bool, true, false, ◌&&◌, ◌||◌, not, String, ◌==◌, ◌<>◌, Option, none, some, List, [], map,
  truthy, or_text, if◌then◌else◌,
}
use helpdesk_go.Http.{
  null, obj, M, throw, message, Result, ok, err, ◌>>=◌, Value, value, undefined, blob,
}
use helpdesk_go.Debounce.{Search}
use helpdesk_go.Http.Convert.{text_of}
use helpdesk_go.Api.Internal.{NewTicket, create_requester, create_ticket}
use helpdesk_go.Api.Upload.{lookup_field}

pub record Values : Type 0 where
  pub title : String
  pub description : Option String
  pub priority : ℕ
  pub requester_id : Option String
  pub requester_email : Option String
  pub requester_name : Option String

-- `String(x)` of a text that may be absent.
abbrev pub string_of : Option String → String
string_of none = "undefined"
string_of (some s) = s

-- `String(r.id)`.
unfoldable pub read_id : Value → Result String
unfolding lookup_field text_of
read_id (value (obj fs)) = ok (text_of (lookup_field "id" fs))
read_id (value null) = err (message "Cannot read properties of null")
read_id (value _) = ok "undefined"
read_id undefined = err (message "Cannot read properties of undefined")
read_id blob = ok "undefined"

abbrev pub new_ticket : Values → String → NewTicket
new_ticket v id = record {
  title = v.title;
  description = some (or_text v.description "");
  requester_id = id;
  priority = v.priority;
  assignee_id = none;
}

abbrev pub register_requester : String → String → M String
register_requester email name = create_requester email name >>= λ r w. (read_id r, w)

-- The agent's mutation. `key` is the idempotency key of the ticket's request.
unfoldable pub agent_create : String → Bool → Values → M Value
unfolding create_requester create_ticket read_id
agent_create key is_manual v w =
    let known = create_ticket key (new_ticket v (string_of v.requester_id)) w in
    let registered =
      (register_requester (string_of v.requester_email) (string_of v.requester_name) >>= λ id.
      create_ticket key (new_ticket v id))
        w in
    if not (truthy v.requester_id) || is_manual
    then (if not (truthy v.requester_email) || not (truthy v.requester_name)
        then throw (message "Name and email required for new requester") w
        else registered)
    else known

-- The manager's form rule on the requester: an ID, or a name and an email.
unfoldable pub manager_valid : Values → Bool
manager_valid v = truthy v.requester_id || (truthy v.requester_email && truthy v.requester_name)

-- The manager's mutation checks nothing itself.
unfoldable pub manager_create : String → Values → M Value
unfolding create_requester create_ticket read_id
manager_create key v w =
    let known = create_ticket key (new_ticket v (string_of v.requester_id)) w in
    let registered =
      (register_requester (string_of v.requester_email) (string_of v.requester_name) >>= λ id.
      create_ticket key (new_ticket v id))
        w in
    if not (truthy v.requester_id) then registered else known

-- A requester as the search gives it, each field possibly absent.
pub record Found : Type 0 where
  pub id : Option String
  pub email : Option String
  pub display_name : Option String

abbrev option_label : Found → Option String → String
option_label r none = or_text r.email (or_text r.id "Unknown")
option_label r (some n) =
    if n == ""
    then or_text r.email (or_text r.id "Unknown")
    else n <> " <" <> or_text r.email "no email" <> ">"

-- The debounced function of `fetchUser` when its timer fires: the state, and the query to send.
unfoldable pub search_fires : String → Search → Search × Option String
search_fires typed s =
    if typed == ""
    then (record s { options = []; fetching = false }, none)
    else (record s { fetching = true }, some typed)

abbrev pub found_options : List Found → List (String × String)
found_options = map (λ r. (option_label r r.display_name, or_text r.id ""))

unfoldable pub search_done : Option (List Found) → Search → Search
search_done none s = record s { fetching = false }
search_done (some found) s = record s { options = found_options found; fetching = false }
