-- ===== src/Tickets/Form.antt =====
-- The requester's form, web/requester/src/components/TicketForm.tsx: its state, the submission with
-- the upload that may follow it, and the reset.
use helpdesk_go.Base.{
  ℕ, ◌≡◌, refl, Bool, true, false, String, Option, none, some, List, [], ◌∷◌, or_text,
}
use helpdesk_go.Http.{
  Json, str, num, File, M, Request, World, Result, ok, err, ◌>>=◌, then_do, Value, send_json, post,
  log,
}
use helpdesk_go.Http.Laws.{requester_fetch-log, authorized}
use helpdesk_go.Api.Requester.{create_ticket}
use helpdesk_go.Api.Upload.{requester_upload}
use helpdesk_go.Tickets.Create.{read_id}

-- The `initial` property of the form.
pub record Initial : Type 0 where
  pub title : Option String
  pub description : Option String
  pub category : Option String
  pub subcategory : Option String
  pub priority : Option ℕ
  pub urgency : Option ℕ

pub record Form : Type 0 where
  pub title : String
  pub description : String
  pub category : String
  pub subcategory : String
  pub priority : ℕ
  pub urgency : ℕ
  pub attachment : Option File

abbrev or_three : Option ℕ → ℕ
or_three none = 3
or_three (some n) = n

unfoldable pub open_form : Initial → Form
open_form i = record {
  title = or_text i.title "";
  description = or_text i.description "";
  category = or_text i.category "";
  subcategory = or_text i.subcategory "";
  priority = or_three i.priority;
  urgency = or_three i.urgency;
  attachment = none;
}

abbrev pub ticket_fields : Form → List (String × Json)
ticket_fields f =
    ("title", str f.title)
    ∷ ("description", str f.description)
    ∷ ("status", str "New")
    ∷ ("category", str f.category)
    ∷ ("subcategory", str f.subcategory)
    ∷ ("priority", num f.priority)
    ∷ ("urgency", num f.urgency)
    ∷ []

-- What `uploadAttachment(t.id!, attachment)` comes to inside its `try`: true if the alert is shown.
upload_for : File → Value → M (Unit {0})
unfolding read_id requester_upload
upload_for a t = (λ w. (read_id t, w)) >>= λ id. requester_upload none id a

abbrev failed_to_upload : Result (Unit {0}) → Bool
failed_to_upload (ok done) = false
failed_to_upload (err e) = true

after_create : Option File → Value → M (Value × Bool)
unfolding upload_for
after_create none t w = (ok (t, false), w)
after_create (some a) t w = let (r, w') = upload_for a t w in (ok (t, failed_to_upload r), w')

-- The mutation: the created ticket, and whether the alert about the attachment was shown.
unfoldable pub submit : Form → M (Value × Bool)
unfolding create_ticket after_create
submit f = create_ticket (ticket_fields f) none >>= λ t. after_create f.attachment t

-- `onSuccess`
unfoldable pub reset : Form → Form
reset f = record {
  title = "";
  description = "";
  category = "";
  subcategory = "";
  priority = 3;
  urgency = 3;
  attachment = none;
}

abbrev pub create_request : Form → Request
create_request f = authorized none (send_json post "/tickets" (ticket_fields f))

create_ticket-log :
    (f : Form) (w : World) → (create_ticket (ticket_fields f) none w).1 ≡ log (create_request f) w
unfolding create_ticket
create_ticket-log f w = requester_fetch-log none (send_json post "/tickets" (ticket_fields f)) w

-- What the page learns of a submission: the created ticket, or the error that kept it from being
-- created. The attachment's upload changes neither.
abbrev pub created : Result (Value × Bool) → Result Value
created (ok (t, alerted)) = ok t
created (err e) = err e

after_create-created :
    (a : Option File) (t : Value) (w : World) → created (after_create a t w).0 ≡ ok t
unfolding after_create
after_create-created none t w = refl
after_create-created (some a) t w = refl

created_step :
    (a : Option File) (x : Result Value × World)
    → created (then_do x (λ t. after_create a t)).0 ≡ x.0
created_step a (ok t, w) = after_create-created a t w
created_step a (err e, w) = refl

-- A submission succeeds with the created ticket exactly when the ticket was created, whatever
-- becomes of its attachment, and rejects otherwise with the error of the creation.
pub submit-created :
    (f : Form) (w : World) → created (submit f w).0 ≡ (create_ticket (ticket_fields f) none w).0
unfolding submit
submit-created f w = created_step f.attachment (create_ticket (ticket_fields f) none w)
