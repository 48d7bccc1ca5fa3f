-- ===== src/Users/Create.antt =====
-- The form "Create Local User" of web/internal/src/components/admin/AdminUsers.tsx, the load of the
-- roles, and the names that the page shows for a user.
use Prim.Native.String.{count}
use helpdesk_go.Base.{
  ◌≡◌, refl, ap, ◌∙◌, inl, inr, Bool-cases, leb, Bool, ◌&&◌, String, nonempty, Option, List, [],
  ◌∷◌, if◌then◌else◌,
}
use helpdesk_go.Http.{
  Json, str, post, Request, World, Result, ok, err, Value, as_json, api_fetch, send_json, log,
}
use helpdesk_go.Http.Laws.{api_fetch-log}
use helpdesk_go.Api.Internal.{optional, text_json}
use helpdesk_go.Users.Roles.{is_accepted}
use helpdesk_go.Users.{Page, User, load, load_request, notice, success, thrown}

pub record NewUser : Type 0 where
  pub username : String
  pub email : Option String
  pub display_name : Option String
  pub password : String

-- The rules of the form: a username, and a password of eight characters or more.
abbrev pub is_valid : NewUser → Bool
is_valid u = nonempty u.username && leb 8 (count u.password)

abbrev pub user_fields : NewUser → List (String × Json)
user_fields u =
    ("username", str u.username)
    ∷ optional "email" (text_json u.email)
        (optional "display_name" (text_json u.display_name) (("password", str u.password) ∷ []))

abbrev pub create_request : NewUser → Request
create_request u = send_json post "/users" (user_fields u)

abbrev created : (Value → List User) → Page → Result Value × World → Page × World
created read p (ok v, w) = load read (record p { notices = success "User created" ∷ p.notices }) w
created read p (err e, w) = notice (thrown e "Failed to create user") (p, w)

-- `onFinish`, which runs for values that the form accepts. `read` makes the users of an answer.
unfoldable pub create_user : (Value → List User) → NewUser → Page → World → Page × World
unfolding load api_fetch
create_user read u p w =
    if is_valid u then created read p (api_fetch as_json (create_request u) w) else (p, w)

-- The effect that loads the roles: a failure leaves them as they are.
unfoldable pub roles_loaded : Result (List String) → Page → Page
roles_loaded (ok roles) p = record p { roles = roles }
roles_loaded (err e) p = p

created-sent :
    (read : Value → List User) (p : Page) (r : Result Value) (w : World)
    → (created read p (r, w)).1 ≡ (if is_accepted r then log (load_request p.q) w else w)
unfolding load
created-sent read p (ok v) w = api_fetch-log as_json (load_request p.q) w
created-sent read p (err e) w = refl

-- The form sends nothing unless its values are valid; otherwise it sends them once, and if the server
-- accepts them the list of users is asked for again.
pub create_user-sent :
    (read : Value → List User) (u : NewUser) (p : Page) (w : World)
    → (create_user read u p w).1 ≡ (
        if is_valid u
        then (if is_accepted (api_fetch as_json (create_request u) w).0
            then log (load_request p.q) (log (create_request u) w)
            else log (create_request u) w)
        else w)
unfolding create_user
create_user-sent read u p w = elim (Bool-cases (is_valid u)) [
  | inl e ↦ rw e (
      created-sent read p (api_fetch as_json (create_request u) w).0
        (api_fetch as_json (create_request u) w).1
      ∙ ap
          (λ v.
            if is_accepted (api_fetch as_json (create_request u) w).0
            then log (load_request p.q) v
            else v)
          (api_fetch-log as_json (create_request u) w))
  | inr e ↦ rw e refl
]
