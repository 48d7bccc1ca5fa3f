-- ===== src/Tests/Tickets.antt =====
-- New tickets and attachments against concrete servers.
use helpdesk_go.Base.{◌≡◌, refl, none, some, [], ◌∷◌, false, length}
use helpdesk_go.Http.{replied, World, obj, str, field, done}
use helpdesk_go.Api.Requester.{create_ticket}
use helpdesk_go.Tickets.Create.{Values, agent_create}
use helpdesk_go.Tickets.Form.{
  Form, Initial, open_form, ticket_fields, submit, created, submit-created,
}
use helpdesk_go.Tickets.Attachments.{Pending, Running}

-- Every request is answered with an object that has an ID.
abbrev world : World
world = record {
  server = λ sent q.
      replied
        (record { status = 201; text = some ""; parsed = some (obj (field "id" (str "r7") done)) });
  sent = [];
  slept = 0;
}

abbrev new_customer : Values
new_customer = record {
  title = "Printer";
  description = none;
  priority = 3;
  requester_id = none;
  requester_email = some "ada@example.com";
  requester_name = some "Ada";
}

registers_first : length (agent_create "k" false new_customer world).1.sent ≡ 2
unfolding agent_create
registers_first = refl

abbrev service : Initial
service = record {
  title = some "VPN access";
  description = none;
  category = some "IT";
  subcategory = none;
  priority = none;
  urgency = some 1;
}

abbrev filled : Form
filled = record (open_form service) {
  attachment = some (record { name = "a.txt"; size = 9; mime = "text/plain" });
}

submit-created_example :
    created (submit filled world).0 ≡ (create_ticket (ticket_fields filled) none world).0
submit-created_example = submit-created filled world

abbrev photo : Pending
photo = record { filename = "photo.png"; bytes = 20 }

abbrev running : Running
running = (0, photo) ∷ (1, record { filename = "log.txt"; bytes = 5 }) ∷ []
