-- ===== src/Services.antt =====
-- The pages of the requester client beside the tickets: the catalogue of services with its form,
-- web/requester/src/components/ServiceCatalog.tsx and ServiceForm.tsx, the inputs of the form that it
-- opens, TicketForm.tsx beside them, and the knowledge base, KnowledgeBase.tsx.
pub mod Laws
use helpdesk_go.Base.{ℕ, String, Bool, Option, none, some, List, [], ◌∷◌, ◌==◌, find, if◌then◌else◌}
use helpdesk_go.Http.{File, Result, ok, err}
use helpdesk_go.Tickets.Form.{Form, open_form}

pub record Service : Type 0 where
  pub id : String
  pub title : String
  pub category : String
  pub description : String

unfoldable pub services : List Service
services =
    record {
      id = "it-support";
      title = "IT Support Request";
      category = "support";
      description = "General IT help";
    }
    ∷ record {
      id = "access";
      title = "Access Request";
      category = "access";
      description = "Request system access";
    }
    ∷ record {
      id = "hardware";
      title = "Hardware Request";
      category = "hardware";
      description = "Request new hardware";
    }
    ∷ []

-- The routes below the catalogue's: one for each service, by its ID.
unfoldable pub service_at : String → Option Service
unfolding services
service_at path = find (λ s. s.id == path) services

-- The form that a service opens.
unfoldable pub service_form : Service → Form
unfolding open_form
service_form s = open_form record {
  title = some s.title;
  description = none;
  category = some s.category;
  subcategory = none;
  priority = none;
  urgency = none;
}

-- What is put into the fields of the form.
pub data Input : Type 0 where
  title description category subcategory : String → Input
  priority urgency : ℕ → Input
  attachment : Option File → Input

-- The fields for the title and the category are not there where they are hidden.
unfoldable pub put : Bool → Bool → Form → Input → Form
put hide_title hide_category f (title s) = if hide_title then f else record f { title = s }
put hide_title hide_category f (category s) = if hide_category then f else record f { category = s }
put hide_title hide_category f (description s) = record f { description = s }
put hide_title hide_category f (subcategory s) = record f { subcategory = s }
put hide_title hide_category f (priority n) = record f { priority = n }
put hide_title hide_category f (urgency n) = record f { urgency = n }
put hide_title hide_category f (attachment a) = record f { attachment = a }

unfoldable pub filled : Bool → Bool → Form → List Input → Form
filled hide_title hide_category f [] = f
filled hide_title hide_category f (i ∷ is) =
    filled hide_title hide_category (put hide_title hide_category f i) is

-- An article of the knowledge base.
pub record Article : Type 0 where
  pub id : String
  pub title : String
  pub body_md : String

pub record KnowledgeBase : Type 0 where
  pub items : List Article
  pub selected : Option Article

-- The effect: a failure to load shows an empty list.
unfoldable pub articles_loaded : Result (List Article) → KnowledgeBase → KnowledgeBase
articles_loaded (ok articles) k = record k { items = articles }
articles_loaded (err e) k = record k { items = [] }

abbrev pub select_article : Article → KnowledgeBase → KnowledgeBase
select_article a k = record k { selected = some a }
