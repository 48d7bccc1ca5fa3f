-- ===== src/Queue/Cells.antt =====
-- The cells and the toolbar of the agent's list of tickets in
-- web/internal/src/components/agent/QueueList.tsx.
use Prim.Native.String.{count}
use helpdesk_go.Base.{
  ℕ, suc, ltb, Bool, String, ◌==◌, ◌<>◌, or_text, truthy, length, Option, none, some, List, [], ◌∷◌,
  if◌then◌else◌,
}
use helpdesk_go.Http.Convert.{decimal}
use helpdesk_go.Queue.{Ticket, QueueList, priority_color}

-- `getStatusColor`, on a status in lower case: the background and the colour.
unfoldable pub status_style : String → String × String
status_style status =
    if status == "open"
    then ("#FFF4E5", "#FF9500")
    else if status == "closed"
    then ("#E6FFFA", "#00B894")
    else if status == "in progress"
    then ("#E6F7FF", "#0984E3")
    else if status == "on hold"
    then ("#FFF0F0", "#FF7675")
    else ("#F3F4F8", "#636E72")

-- `String(index + 1).padStart(2, '0')`
unfoldable pub row_number : ℕ → String
row_number index = let n = decimal (suc index) in if ltb (count n) 2 then "0" <> n else n

-- The texts of a row but for its status and its age, by the columns' titles.
unfoldable pub row_cells : ℕ → Ticket → List (String × String)
unfolding row_number priority_color
row_cells index t =
    ("S.No", row_number index)
    ∷ ("Ticket ID", "#" <> t.number)
    ∷ ("Name", or_text t.requester "Unknown")
    ∷ ("Subject", t.title)
    ∷ ("Category", or_text t.category "General")
    ∷ ("Priority", (priority_color t.priority).0)
    ∷ []

-- Where a click on the ticket's number leads.
abbrev pub ticket_path : Ticket → String
ticket_path t = "/tickets/" <> t.id

-- Where the choice of a status in the toolbar leads.
unfoldable pub filter_path : String → String
filter_path v = if v == "all" then "/tickets" else "/tickets?status=" <> v

-- The tag of a status, by `v?.toUpperCase()`: `none` has the last style and no text. `lower` and
-- `upper` are the language's changes of case.
unfoldable pub status_cell :
    (lower upper : String → String) → Option String → (String × String) × String
unfolding status_style
status_cell lower upper none = (status_style "", "")
status_cell lower upper (some v) = (status_style (lower v), upper v)

-- The choices of the toolbar: the value and the label.
abbrev pub filter_options : List (String × String)
filter_options = ("all", "All Tickets") ∷ ("open", "Open") ∷ ("closed", "Closed") ∷ []

-- The line below the table.
unfoldable pub showing_line : QueueList → String
unfolding decimal
showing_line q =
    "Showing 1 to " <> (decimal (length q.items) <> (" of " <> decimal (length q.items)))

-- Whether the button "Load More" is there.
unfoldable pub has_more : QueueList → Bool
has_more q = truthy q.next_cursor
