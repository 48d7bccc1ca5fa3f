-- ===== src/Queue.antt =====
-- The agent's list of tickets, web/internal/src/components/agent/QueueList.tsx, and the requester's,
-- web/requester/src/components/TicketList.tsx.
pub mod Paging
pub mod Live
pub mod Cells
use helpdesk_go.Base.{
  ℕ, suc, eqb, Bool, true, false, String, ◌==◌, Option, none, some, List, [], ◌∷◌, ◌++◌, truthy,
  nonempty, or_text, if◌then◌else◌, length,
}
use helpdesk_go.Queries.{Query, use_tickets}

-- The fields of a ticket that the lists show.
pub record Ticket : Type 0 where
  pub id : String
  pub number : String
  pub title : String
  pub requester : Option String
  pub category : Option String
  pub status : Option String
  pub priority : Option ℕ

-- A page as the server sends it.
pub record Page : Type 0 where
  pub items : List Ticket
  pub next_cursor : Option String

pub record QueueList : Type 0 where
  pub filters : List (String × String)
  pub connected : Bool
  pub show_new : Bool
  pub items : List Ticket
  pub cursor : Option String
  pub next_cursor : Option String

unfoldable pub mount : List (String × String) → QueueList
mount filters = record {
  filters = filters;
  connected = true;
  show_new = false;
  items = [];
  cursor = none;
  next_cursor = none;
}

-- The query of the current page, polled every five seconds while the events are disconnected.
unfoldable pub current_query : QueueList → Query × Option ℕ
unfolding use_tickets
current_query q = (use_tickets q.cursor (some q.filters), if q.connected then none else some 5000)

-- The effect that runs when the data or the cursor has changed. `none`: no data for that cursor yet.
unfoldable pub data_changed : Option Page → QueueList → QueueList
data_changed none q = q
data_changed (some p) q = record q {
  items = if truthy q.cursor then q.items ++ p.items else p.items;
  next_cursor = p.next_cursor;
}

-- The effect that runs when the URL's filters have changed.
unfoldable pub filters_changed : List (String × String) → QueueList → QueueList
filters_changed filters q = record q { filters = filters; cursor = none }

-- `setConnected`, which the page gives its subscription as `onStatus`.
unfoldable pub status_received : Bool → QueueList → QueueList
status_received b q = record q { connected = b }

-- The handler of the three events, besides its `refetch`.
unfoldable pub event_received : QueueList → QueueList
event_received q = record q { cursor = none }

unfoldable pub load_more : QueueList → QueueList
load_more q = if truthy q.next_cursor then record q { cursor = q.next_cursor } else q

-- `onCreated` of the modal, besides its `refetch`.
unfoldable pub ticket_created : QueueList → QueueList
ticket_created q = record q { show_new = false; cursor = none }

abbrev pub subscribed_events : List String
subscribed_events = "ticket_created" ∷ "ticket_updated" ∷ "queue_changed" ∷ []

-- The style of a priority: its text and its colour.
unfoldable pub priority_color : Option ℕ → String × String
priority_color none = ("Normal", "#00B894")
priority_color (some p) =
    if eqb p 1
    then ("High", "red")
    else if eqb p 2
    then ("High", "#FF7675")
    else if eqb p 3
    then ("Medium", "#FDCB6E")
    else ("Normal", "#00B894")

-- The requester's list: `load` with its two outcomes.
pub record TicketList : Type 0 where
  pub items : List Ticket
  pub next_cursor : Option String
  pub loading : Bool

unfoldable pub load_start : TicketList → TicketList
load_start l = record l { loading = true }

-- `reset` is set by the first load only.
unfoldable pub load_done : Bool → Option Page → TicketList → TicketList
load_done reset none l = record l { loading = false }
load_done reset (some p) l = record l {
  items = if reset then p.items else l.items ++ p.items;
  next_cursor = p.next_cursor;
  loading = false;
}

-- The button is shown for a cursor and disabled while a page is loading.
unfoldable pub can_load_more : TicketList → Bool
can_load_more l = if truthy l.next_cursor then (if l.loading then false else true) else false
