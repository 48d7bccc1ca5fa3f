-- ===== src/Session/Portal/Routes.antt =====
-- The navigation and the routes of the requester's client, web/requester/src/App.tsx.
use helpdesk_go.Base.{
  ◌≡◌, refl, Bool, true, ◌||◌, String, ◌<>◌, or_text, Option, none, some, List, [], ◌∷◌, map, All,
  includes, if◌then◌else◌,
}
use helpdesk_go.Http.{str, Request, post, send_json, send_empty}

-- What a route shows: a page, or another path in its place.
pub data Element : Type 0 where
  ticket_list ticket_form ticket_detail knowledge_base service_catalog : Element
  redirect : String → Element

-- The routes by their patterns, in order.
abbrev pub routes : List (String × Element)
routes =
    ("/", redirect "/tickets")
    ∷ ("/tickets", ticket_list)
    ∷ ("/tickets/new", ticket_form)
    ∷ ("/tickets/:id", ticket_detail)
    ∷ ("/kb", knowledge_base)
    ∷ ("/catalog/*", service_catalog)
    ∷ []

-- The links of the navigation: the text and the target.
abbrev pub nav_links : List (String × String)
nav_links =
    ("Tickets", "/tickets")
    ∷ ("New Ticket", "/tickets/new")
    ∷ ("Knowledge Base", "/kb")
    ∷ ("Service Catalog", "/catalog")
    ∷ []

-- The button "Logout": a redirect of the OIDC library, or a request.
unfoldable pub logout : Bool → Option Request
logout local_mode = if local_mode then some (send_empty post "/logout") else none

-- The inputs of the sign-in: label, name and what they are filled with at first.
abbrev pub sign_in_inputs : List (String × (String × String))
sign_in_inputs = ("Username", ("username", "admin")) ∷ ("Password", ("password", "admin")) ∷ []

-- What the form sends, of the values of its two inputs.
unfoldable pub login_request : Option String → Option String → Request
login_request username password =
    send_json post "/login"
      (("username", str (or_text username "")) ∷ ("password", str (or_text password "")) ∷ [])

-- A path that a route has, or the start of those that a route has.
abbrev pub declared : String → Bool
declared path =
    includes (map (λ r. r.0) routes) path || includes (map (λ r. r.0) routes) (path <> "/*")

-- Every link of the navigation leads to a route.
nav_links-declared : All (λ l. declared l.1 ≡ true) nav_links
nav_links-declared = (refl, (refl, (refl, (refl, tt))))
