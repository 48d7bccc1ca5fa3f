-- ===== src/Tickets/Detail/View.antt =====
-- What the agent's page of one ticket shows, web/internal/src/components/agent/TicketDetail.tsx: the
-- ticket, the form of its requester, the button of the upload, the attachments and the comments.
use helpdesk_go.Base.{
  ℕ, Bool, true, false, String, ◌<>◌, nonempty, or_text, Option, none, some, List, [], ◌∷◌,
  if◌then◌else◌,
}
use helpdesk_go.Http.{Value, Json}
use helpdesk_go.Http.Convert.{text_of}
use helpdesk_go.Tickets.Attachments.{Pending}
use helpdesk_go.Tickets.Detail.{can_upload}

pub record ShownTicket : Type 0 where
  pub title : Option String
  pub number : Option String
  pub status : Option String
  pub description : Option String

-- The heading with the tag after it, the paragraph with the description, and the status that is
-- selected; `none` for a part that is not there. `trim` is the language's.
pub record TicketView : Type 0 where
  pub heading : Option String
  pub tag : Option String
  pub paragraph : Option String
  pub selected : Option String

-- `a || b`
abbrev pub first_text : Option String → Option String → Option String
first_text none b = b
first_text (some a) b = if nonempty a then some a else b

abbrev pub given_text : Option String → Option String
given_text o = first_text o none

unfoldable pub ticket_view : (trim : String → String) → ShownTicket → TicketView
ticket_view trim t = record {
  heading = first_text t.title t.number;
  tag = given_text t.status;
  paragraph =
      if nonempty (trim (or_text t.description "")) then some (or_text t.description "") else none;
  selected = t.status;
}

abbrev pub ticket_statuses : List (String × String)
ticket_statuses = ("open", "Open") ∷ ("pending", "Pending") ∷ ("closed", "Closed") ∷ []

pub record RequesterData : Type 0 where
  pub email : Option String
  pub display_name : Option String

-- The form of the requester starts with these values, and is there once the requester is loaded.
unfoldable pub requester_form : Option RequesterData → Option (List (String × Option String))
requester_form none = none
requester_form (some r) = some (("display_name", r.display_name) ∷ ("email", r.email) ∷ [])

-- The button of the upload: whether it is disabled, and its text.
unfoldable pub upload_button : Option Value → Bool × String
unfolding can_upload
upload_button features =
    if can_upload features
    then (false, "Upload Attachment")
    else (true, "Attachments disabled (no storage)")

-- The text of a line of the attachments; `fixed` is the language's `toFixed(1)` of a 1024th.
unfoldable pub pending_text : Pending → String
pending_text a = a.filename <> " (uploading...)"

unfoldable pub stored_text : (fixed : ℕ → String) → (filename : Json) → Option ℕ → String
unfolding text_of
stored_text fixed filename none = text_of (some filename) <> (" (" <> (fixed 0 <> " KB)"))
stored_text fixed filename (some bytes) =
    text_of (some filename) <> (" (" <> (fixed bytes <> " KB)"))

-- `String(c.body_md || c.body || '')`
unfoldable pub comment_text : Option String → Option String → String
comment_text body_md body = or_text body_md (or_text body "")
