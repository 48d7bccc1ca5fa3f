-- ===== src/Services/Laws.antt =====
-- A ticket that is filed through the catalogue of services.
use helpdesk_go.Base.{
  ◌≡◌, refl, ◌∙◌, arith, eq_iff, String, true, none, some, List, [], ◌∷◌, or_text,
}
use helpdesk_go.Http.{str, num, post, send_json}
use helpdesk_go.Http.Laws.{authorized}
use helpdesk_go.Tickets.Form.{Form, open_form, create_request}
use helpdesk_go.Services.{
  Service, service_form, Input, title, description, category, subcategory, priority, urgency,
  attachment, put, filled,
}

or_text-empty : (t : String) → or_text (some t) "" ≡ t
or_text-empty t = ground (arith, eq_iff t "")

abbrev pub Agrees : Form → Form → Type 0
Agrees f g = (f.title ≡ g.title) × (f.category ≡ g.category)

put-Agrees : (f : Form) (i : Input) → Agrees (put true true f i) f
unfolding put
put-Agrees f (title s) = (refl, refl)
put-Agrees f (category s) = (refl, refl)
put-Agrees f (description s) = (refl, refl)
put-Agrees f (subcategory s) = (refl, refl)
put-Agrees f (priority n) = (refl, refl)
put-Agrees f (urgency n) = (refl, refl)
put-Agrees f (attachment a) = (refl, refl)

filled-Agrees : (f : Form) (is : List Input) → Agrees (filled true true f is) f
unfolding filled
filled-Agrees f [] = (refl, refl)
filled-Agrees f (i ∷ is) =
    (let h = filled-Agrees (put true true f i) is in
      (h.0 ∙ (put-Agrees f i).0, h.1 ∙ (put-Agrees f i).1))

-- Whatever the requester puts into the form that a service opens, the ticket is filed under the
-- service's title and category, with the rest as it stands in the form.
pub service_ticket :
    (s : Service) (is : List Input)
    → create_request (filled true true (service_form s) is)
      ≡ authorized none (
          send_json post "/tickets" (
            ("title", str s.title)
            ∷ ("description", str (filled true true (service_form s) is).description)
            ∷ ("status", str "New")
            ∷ ("category", str s.category)
            ∷ ("subcategory", str (filled true true (service_form s) is).subcategory)
            ∷ ("priority", num (filled true true (service_form s) is).priority)
            ∷ ("urgency", num (filled true true (service_form s) is).urgency)
            ∷ []))
unfolding service_form open_form
service_ticket s is =
    let h = filled-Agrees (service_form s) is in
    rw (h.0, h.1, or_text-empty s.title, or_text-empty s.category) refl
