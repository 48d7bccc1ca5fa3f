-- ===== src/Tickets/Reader/Laws.antt =====
-- The requester's page of one ticket: what it says of the uploads, and the comments that it sends.
use helpdesk_go.Base.{
  if-keep, runs-keep, ℕ, ◌≡◌, ◌≢◌, arith, eq_iff, Bool, true, false, not, ◌&&◌, String, ◌==◌,
  nonempty, Option, none, some, List, [], ◌∷◌, All, Bool-cases, inl, inr,
}
use helpdesk_go.Base.{nth}
use helpdesk_go.Debounce.Laws.{append-cons-ne-nil}
use helpdesk_go.Tickets.Attachments.{Pending}
use helpdesk_go.Tickets.Reader.{
  System, Event, writes, submits, comment_answered, chooses, progresses, upload_ends_of, mount,
  start, step, run, started, ended, progressed, sent_comment, answered, submit, handle_upload,
  upload_settled, comment_added,
}

-- What the page says: it is uploading only while an upload is running. What it has sent: comments
-- with a text.
pub record Inv (s : System) : Type 0 where
  pub uploading : s.page.uploading ≡ true → s.running ≢ []
  pub commented : All (λ body. nonempty body ≡ true) s.commented

started-Inv :
    (id : Option String) (f : Option Pending) (s : System)
    → Inv s
    → Inv (started (handle_upload id f s.page) s)
unfolding handle_upload
started-Inv none f s h = h
started-Inv (some id) none s h = h
started-Inv (some id) (some f) s h = elim (Bool-cases (id == "")) [
  | inl e ↦ rw e h
  | inr e ↦
      rw e
        record { uploading = λ u. append-cons-ne-nil s.running f.filename; commented = h.commented }
]

ended-Inv : (o : Option String) (n : ℕ) (s : System) → Inv s → Inv (ended o n s)
unfolding upload_settled
ended-Inv none n s h = h
ended-Inv (some name) n s h = record { uploading = λ u. cc; commented = h.commented }

progressed-Inv : (r : List String) (n : ℕ) (s : System) → Inv s → Inv (progressed r n s)
progressed-Inv [] n s h = h
progressed-Inv (name ∷ names) n s h = record { uploading = h.uploading; commented = h.commented }

sent-Inv :
    (id : Option String) (s : System)
    → nonempty s.page.body ≡ true
    → Inv s
    → Inv (sent_comment (submit id s.page) s)
unfolding submit
sent-Inv none s e h = h
sent-Inv (some id) s e h = elim (Bool-cases (id == "")) [
  | inl k ↦ rw k h
  | inr k ↦ rw k record { uploading = h.uploading; commented = (e, h.commented) }
]

answered-Inv : (good : Bool) (s : System) → Inv s → Inv (answered good s)
unfolding comment_added
answered-Inv true s h = record { uploading = h.uploading; commented = h.commented }
answered-Inv false s h = record { uploading = h.uploading; commented = h.commented }

step-Inv : (id : Option String) (s : System) (e : Event) → Inv s → Inv (step id s e)
unfolding step
step-Inv id s (writes text) h = record { uploading = h.uploading; commented = h.commented }
step-Inv id s submits h =
    if-keep Inv (nonempty s.page.body && not s.adding) (sent_comment (submit id s.page) s) s
      (λ e. sent-Inv id s (ground arith) h) (λ _. h)
step-Inv id s (comment_answered good) h =
    if-keep Inv s.adding (answered good s) s (λ _. answered-Inv good s h) (λ _. h)
step-Inv id s (chooses f) h = started-Inv id f s h
step-Inv id s (progresses n) h = progressed-Inv s.running n s h
step-Inv id s (upload_ends_of n) h = ended-Inv (nth n s.running) n s h

-- Whatever the requester does and however the server answers, the page says that it is uploading only
-- while an upload is running, and no comment that it sends is empty.
pub ticket_page-Inv : (id : Option String) (es : List Event) → Inv (run id start es)
unfolding start mount
ticket_page-Inv id es =
    runs-keep (step id) Inv (step-Inv id) start es record { uploading = λ u. cc; commented = tt }

-- Two uploads, of which the first ends.
abbrev pub overlapping : String → Pending → Pending → System
overlapping id a b =
    run (some id) start (chooses (some a) ∷ chooses (some b) ∷ upload_ends_of 0 ∷ [])

-- When the first of two uploads ends, the page no longer says that it is uploading, though the second
-- one runs on.
pub second_upload_hidden :
    (id : String) (a b : Pending)
    → id ≢ ""
    → ((overlapping id a b).page.uploading ≡ false)
      × ((overlapping id a b).running ≡ b.filename ∷ [])
unfolding step start mount handle_upload upload_settled
second_upload_hidden id a b h = ground (arith, eq_iff id "")

-- A comment that is being sent while the next one is written.
abbrev pub written_early : String → String → String → System
written_early id first second =
    run (some id) start (writes first ∷ submits ∷ writes second ∷ comment_answered true ∷ [])

-- What the requester writes while a comment is being sent is lost when the answer comes.
pub draft_lost :
    (id first second : String)
    → id ≢ ""
    → first ≢ ""
    → ((written_early id first second).page.body ≡ "")
      × ((written_early id first second).commented ≡ first ∷ [])
unfolding step start mount submit comment_added
draft_lost id first second h k = ground (arith, eq_iff id "", eq_iff first "")
