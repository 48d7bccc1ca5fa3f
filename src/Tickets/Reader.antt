-- ===== src/Tickets/Reader.antt =====
-- The requester's page of one ticket, web/requester/src/components/TicketDetail.tsx: the comment that is
-- written, and the uploads, of which several may run at once.
pub mod Laws
pub mod View
use helpdesk_go.Base.{
  runs, oldest, without_oldest, nth, drop_nth, ℕ, zero, suc, ◌≡◌, ◌≢◌, refl, arith, eq_iff, Bool,
  true, false, not, ◌&&◌, String, ◌==◌, nonempty, Option, none, some, List, [], ◌∷◌, ◌++◌,
  if◌then◌else◌,
}
use helpdesk_go.Base.{nth, drop_nth}
use helpdesk_go.Tickets.Attachments.{Pending, upload_starts, upload_ends}

pub record Page : Type 0 where
  pub body : String
  pub uploading : Bool
  pub progress : ℕ
  pub pending : List Pending

unfoldable pub mount : Page
mount = record { body = ""; uploading = false; progress = 0; pending = [] }

-- `handleUpload` up to its first wait. Nothing happens without a file or without an ID.
unfoldable pub handle_upload : Option String → Option Pending → Page → Option (Page × Pending)
unfolding upload_starts
handle_upload none f p = none
handle_upload (some id) none p = none
handle_upload (some id) (some f) p =
    if id == ""
    then none
    else some (record p { uploading = true; pending = upload_starts f p.pending }, f)

-- Its `finally`, whatever became of the upload.
unfoldable pub upload_settled : String → Page → Page
unfolding upload_ends
upload_settled name p = record p {
  uploading = false;
  progress = 0;
  pending = upload_ends name p.pending;
}

-- `submit`: the comment that is sent.
unfoldable pub submit : Option String → Page → Option String
submit none p = none
submit (some id) p = if id == "" then none else some p.body

unfoldable pub comment_added : Page → Page
comment_added p = record p { body = "" }

-- The list is said to be empty where there is neither a stored attachment nor a pending one.
unfoldable pub says_none : ℕ → Page → Bool
says_none zero p = elim p.pending [ [] ↦ true | _ ↦ false ]
says_none (suc n) p = false

-- The page with the names of the files that are being uploaded, the earliest first, and whether a
-- comment is being sent.
pub record System : Type 0 where
  pub page : Page
  pub running : List String
  pub adding : Bool
  pub commented : List String

pub data Event : Type 0 where
  writes : String → Event
  submits : Event
  comment_answered : Bool → Event
  chooses : Option Pending → Event
  progresses : ℕ → Event
  upload_ends_of : ℕ → Event

abbrev pub started : Option (Page × Pending) → System → System
started none s = s
started (some (p, f)) s = record s { page = p; running = s.running ++ f.filename ∷ [] }

abbrev pub sent_comment : Option String → System → System
sent_comment none s = s
sent_comment (some body) s = record s { adding = true; commented = body ∷ s.commented }

-- `onSuccess` empties the text area, whatever it holds by then.
abbrev pub answered : Bool → System → System
answered good s = record s { page = if good then comment_added s.page else s.page; adding = false }

abbrev pub ended : Option String → ℕ → System → System
ended none n s = s
ended (some name) n s = record s {
  page = upload_settled name s.page;
  running = drop_nth n s.running;
}

-- `onProgress` of an upload that is running.
abbrev pub progressed : List String → ℕ → System → System
progressed [] n s = s
progressed (name ∷ names) n s = record s { page = record s.page { progress = n } }

-- The text area is required, and the button is disabled while a comment is being sent.
unfoldable pub step : Option String → System → Event → System
unfolding handle_upload upload_settled submit comment_added nth drop_nth
step id s (writes text) = record s { page = record s.page { body = text } }
step id s submits =
    if nonempty s.page.body && not s.adding then sent_comment (submit id s.page) s else s
step id s (comment_answered good) = if s.adding then answered good s else s
step id s (chooses f) = started (handle_upload id f s.page) s
step id s (progresses n) = progressed s.running n s
step id s (upload_ends_of n) = ended (nth n s.running) n s

unfoldable pub start : System
unfolding mount
start = record { page = mount; running = []; adding = false; commented = [] }

abbrev pub run : Option String → System → List Event → System
run id = runs (step id)
