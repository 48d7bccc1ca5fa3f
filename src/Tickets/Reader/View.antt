-- ===== src/Tickets/Reader/View.antt =====
-- The queries of the requester's page of one ticket and what it shows of their answers,
-- web/requester/src/components/TicketDetail.tsx.
use helpdesk_go.Base.{
  ℕ, ◌+◌, ◌*◌, ◌/◌, Bool, true, false, truthy, String, ◌<>◌, Option, none, some, List, [], ◌∷◌,
  ◌++◌, map, length, if◌then◌else◌,
}
use helpdesk_go.Http.{M, Value}
use helpdesk_go.Http.Convert.{decimal}
use helpdesk_go.Api.Requester.{get_ticket, list_comments, list_attachments}
use helpdesk_go.Tickets.Attachments.{Pending}
use helpdesk_go.Tickets.Reader.{Page, says_none}

abbrev asked : (String → M Value) → Option String → Option (M Value)
asked call none = none
asked call (some id) = if truthy (some id) then some (call id) else none

-- The three queries, by their keys; they run where the route has an ID.
unfoldable pub reader_queries : Option String → Option String → List (String × Option (M Value))
unfolding get_ticket list_comments list_attachments
reader_queries id token =
    ("ticket", asked (λ i. get_ticket i token) id)
    ∷ ("comments", asked (λ i. list_comments i token) id)
    ∷ ("attachments", asked (λ i. list_attachments i token) id)
    ∷ []

pub record ReaderTicket : Type 0 where
  pub title : String
  pub description : String

pub record StoredFile : Type 0 where
  pub id : String
  pub filename : String
  pub bytes : Option ℕ

-- `Math.round((a.bytes || 0) / 1024)`: halves go up.
abbrev pub kilobytes : Option ℕ → ℕ
kilobytes none = 0
kilobytes (some n) = (2 * n + 1024) / 2048

-- A line of the list: its text, and the ID that its two buttons use, where it has them.
unfoldable pub pending_line : Pending → String × Option String
pending_line a = (a.filename <> " (uploading...)", none)

unfoldable pub stored_line : StoredFile → String × Option String
unfolding decimal
stored_line a = (a.filename <> (" (" <> (decimal (kilobytes a.bytes) <> " KB)")), some a.id)

pub data AttachmentsView : Type 0 where
  loading_line none_line : AttachmentsView
  lines : List (String × Option String) → AttachmentsView

-- `xs || []`
abbrev pub or_empty : {A : Type 0} → Option (List A) → List A
or_empty none = []
or_empty (some xs) = xs

unfoldable pub attachments_view : Bool → Option (List StoredFile) → Page → AttachmentsView
unfolding says_none pending_line stored_line
attachments_view is_loading stored p =
    if is_loading
    then loading_line
    else if says_none (length (or_empty stored)) p
    then none_line
    else lines (map pending_line p.pending ++ map stored_line (or_empty stored))

-- The page: its title and description, whether the bar is shown, the attachments, the comments, or
-- `none` while they load, and the text of the button.
pub data ReaderView : Type 0 where
  loading : ReaderView
  shows :
      (title description : String)
      → (bar : Option ℕ) → AttachmentsView
      → (comments : Option (List String)) → (button : String) → ReaderView

-- A query: whether it is loading, and its data.
abbrev pub Query : Type 0 → Type 0
Query A = Bool × Option A

abbrev shown_of :
    Bool
    → Option ReaderTicket
    → Query (List String)
    → Query (List StoredFile)
    → Bool
    → Page
    → ReaderView
shown_of true ticket comments attachments adding p = loading
shown_of false none comments attachments adding p = loading
shown_of false (some t) comments attachments adding p =
    shows t.title t.description (if p.uploading then some p.progress else none)
      (attachments_view attachments.0 attachments.1 p)
      (if comments.0 then none else some (or_empty comments.1))
      (if adding then "Adding…" else "Add Comment")

unfoldable pub reader_view :
    Query ReaderTicket → Query (List String) → Query (List StoredFile) → Bool → Page → ReaderView
unfolding attachments_view
reader_view ticket comments attachments adding p =
    shown_of ticket.0 ticket.1 comments attachments adding p
