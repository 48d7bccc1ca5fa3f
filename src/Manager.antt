-- ===== src/Manager.antt =====
-- The manager's queue, web/internal/src/components/manager/QueueManager.tsx: its state and query, the
-- changes of assignee and priority, the texts of its cells, and the picker of assignees.
pub mod Laws
pub mod View
pub mod Live
use Prim.Native.String.{[] as empty, ◌∷◌ as ◌∷∷◌, count}
use helpdesk_go.Base.{
  ℕ, zero, suc, ◌-◌, ltb, Bool, true, false, ◌&&◌, not, String, ◌==◌, ◌<>◌, nonempty, truthy,
  or_text, Option, none, some, List, [], ◌∷◌, map, if◌then◌else◌,
}
use helpdesk_go.Http.{M, get, Request, send_empty}
use helpdesk_go.Api.Internal.{TicketPatch, update_ticket}
use helpdesk_go.Queries.{Query, use_tickets}
use helpdesk_go.Queue.{Ticket, Page}
use helpdesk_go.Debounce.{Search, Code}

pub record QueueManager : Type 0 where
  pub connected : Bool
  pub show_new : Bool

unfoldable pub mount : QueueManager
mount = record { connected = true; show_new = false }

-- `setConnected`, which the page gives its subscription as `onStatus`.
unfoldable pub set_connected : Bool → QueueManager → QueueManager
set_connected b m = record m { connected = b }

-- The query, polled every five seconds while the events are disconnected.
unfoldable pub manager_query : QueueManager → Query × Option ℕ
unfolding use_tickets
manager_query m = (use_tickets none none, if m.connected then none else some 5000)

-- `data?.items || []`
unfoldable pub shown_tickets : Option Page → List Ticket
shown_tickets none = []
shown_tickets (some p) = p.items

-- The first `n` characters.
unfoldable pub take_chars : ℕ → String → String
take_chars zero s = ""
take_chars (suc n) empty = ""
take_chars (suc n) (c ∷∷ s) = c ∷∷ take_chars n s

-- `truncate`, for an `n` above 0, on a text without characters that count twice in the language.
unfoldable pub truncate : String → ℕ → String
unfolding take_chars
truncate s n = if nonempty s && ltb n (count s) then take_chars (n - 1) s <> "…" else s

-- `val || null`
abbrev pub or_null : Option String → Option String
or_null none = none
or_null (some v) = if v == "" then none else some v

-- The picker's `onChange`, the cell's, and the mutation. An assignee that is taken away is sent as
-- `null`.
unfoldable pub change_assignee : String → Option String → M (Unit {0})
unfolding update_ticket
change_assignee id val =
    update_ticket id (record { assignee_id = some (or_null (or_null val)); priority = none })

unfoldable pub change_priority : String → ℕ → M (Unit {0})
unfolding update_ticket
change_priority id val = update_ticket id (record { assignee_id = none; priority = some val })

-- A user as the picker reads it.
pub record Assignee : Type 0 where
  pub id : String
  pub display_name : Option String
  pub email : Option String
  pub username : Option String

-- `u.display_name || u.email || u.username || u.id`
abbrev pub assignee_label : Assignee → String
assignee_label u = or_text u.display_name (or_text u.email (or_text u.username u.id))

abbrev pub assignee_option : Assignee → String × String
assignee_option u = (assignee_label u, u.id)

-- The effect on `value`: the one option for the assignee that is set. `none`: the request failed.
unfoldable pub value_loaded : Option Assignee → Search → Search
value_loaded none s = s
value_loaded (some u) s = record s { options = assignee_option u ∷ [] }

abbrev pub value_request : Option String → Option Request
value_request none = none
value_request (some v) = if v == "" then none else some (send_empty get ("/users/" <> v))

-- `run`, when the timer of 300 ms fires: an empty text clears the options and asks nothing.
unfoldable pub picker_fires : String → Search → Search × Option String
picker_fires q s =
    if q == "" then (record s { options = [] }, none) else (record s { fetching = true }, some q)

unfoldable pub picker_done : Option (List Assignee) → Search → Search
picker_done none s = record s { fetching = false }
picker_done (some users) s = record s { options = map assignee_option users; fetching = false }

abbrev pub picker : Code
picker = record { Answer = List Assignee; fires = picker_fires; done = picker_done }
