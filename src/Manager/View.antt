-- ===== src/Manager/View.antt =====
-- The table of the manager's queue and the fields of its picker,
-- web/internal/src/components/manager/QueueManager.tsx.
use helpdesk_go.Base.{
  ℕ, String, ◌<>◌, or_text, nonempty, Option, none, some, List, [], ◌∷◌, if◌then◌else◌,
}
use helpdesk_go.Manager.{QueueManager, truncate}

-- The fields of a ticket that the table reads.
pub record ManagedTicket : Type 0 where
  pub id : String
  pub number : String
  pub title : Option String
  pub description : Option String
  pub status : Option String
  pub assignee_id : Option String
  pub requester : Option String
  pub priority : Option ℕ

-- A row: `none` for a cell that is empty. The link is the target of a click on the subject.
pub record Row : Type 0 where
  pub number : String
  pub subject : String
  pub link : String
  pub description : Option (String × String)
  pub status_tag : Option String
  pub assignee : Option String
  pub requester : Option String
  pub priority : Option ℕ

-- A text with the whole of it as its tooltip.
abbrev pub shortened : Option String → Option (String × String)
shortened none = none
shortened (some v) = if nonempty v then some (truncate v 120, v) else none

abbrev pub tag_text : Option String → Option String
tag_text none = none
tag_text (some v) = if nonempty v then some v else none

unfoldable pub managed_row : ManagedTicket → Row
unfolding truncate
managed_row t = record {
  number = t.number;
  subject = or_text t.title t.number;
  link = "/tickets/" <> t.id;
  description = shortened t.description;
  status_tag = tag_text t.status;
  assignee = t.assignee_id;
  requester = t.requester;
  priority = t.priority;
}

abbrev pub priority_options : List (ℕ × String)
priority_options = (1, "Critical") ∷ (2, "High") ∷ (3, "Medium") ∷ (4, "Low") ∷ []

unfoldable pub events_line : QueueManager → String
events_line m = "Events: " <> (if m.connected then "connected" else "disconnected")
