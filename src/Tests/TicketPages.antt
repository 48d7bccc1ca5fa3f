-- ===== src/Tests/TicketPages.antt =====
-- The pages of one ticket, and the catalogue of services, at work.
use helpdesk_go.Base.{◌≡◌, refl, List, [], ◌∷◌, some, true}
use helpdesk_go.Http.{World, failed}
use helpdesk_go.Tickets.Reader.{
  Event, writes, submits, comment_answered, chooses, upload_ends_of, run, start, step,
}
use helpdesk_go.Tickets.Reader.Laws.{Inv as ReaderInv, ticket_page-Inv}
use helpdesk_go.Services.{Service, Input, title, description}

abbrev world : World
world = record { server = λ sent q. failed; sent = []; slept = 0 }

abbrev reading : List Event
reading =
    writes "Any news?"
    ∷ submits
    ∷ chooses (some (record { filename = "log.txt"; bytes = 10 }))
    ∷ comment_answered true
    ∷ upload_ends_of 0
    ∷ []

one_comment : (run (some "t1") start reading).commented ≡ "Any news?" ∷ []
unfolding start step
one_comment = refl

ticket_page-Inv_example : ReaderInv (run (some "t1") start reading)
ticket_page-Inv_example = ticket_page-Inv (some "t1") reading

abbrev access : Service
access = record {
  id = "access";
  title = "Access Request";
  category = "access";
  description = "Request system access";
}

abbrev inputs : List Input
inputs = title "Something else" ∷ description "The wiki, please" ∷ []
