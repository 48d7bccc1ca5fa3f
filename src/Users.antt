-- ===== src/Users.antt =====
-- The administration of users, web/internal/src/components/admin/AdminUsers.tsx: the search, the
-- selected user, and the roles that are given and taken.
pub mod Panel
pub mod Flow
pub mod Roles
pub mod Create
use helpdesk_go.Base.{
  Bool, true, false, not, String, ◌==◌, ◌<>◌, Option, none, some, List, [], ◌∷◌, includes, keep,
  find, nonempty, if◌then◌else◌,
}
use helpdesk_go.Http.{
  Json, str, get, post, delete, Request, World, Error, Result, ok, err, Value, as_json, api_fetch,
  send_json, send_empty,
}

pub record User : Type 0 where
  pub id : String
  pub external_id : Option String
  pub username : Option String
  pub email : Option String
  pub display_name : Option String
  pub roles : List String

-- `message.success(text)`, and `message.error(e?.message || fallback)`.
pub data Notice : Type 0 where
  success : String → Notice
  thrown : Error → String → Notice

pub record Page : Type 0 where
  pub q : String
  pub loading : Bool
  pub users : List User
  pub selected : Option User
  pub roles : List String
  pub new_role : String
  pub notices : List Notice

abbrev pub load_query : String → List (String × String)
load_query q = if q == "" then [] else ("q", q) ∷ []

abbrev pub load_request : String → Request
load_request q = record (send_empty get "/users") { query = load_query q }

-- The roles that the selection offers.
unfoldable pub role_options : List String → User → List String
role_options roles u = keep (λ r. not (includes u.roles r)) roles

-- The effect on `users` and `selected`: the selected user is replaced by the listed one of its ID,
-- if there is one. Where both are alike the code leaves it, which is the same.
abbrev pub found_or : Option User → User → User
found_or none u = u
found_or (some s) u = s

unfoldable pub sync_selected : List User → User → User
sync_selected users u = found_or (find (λ s. s.id == u.id) users) u

abbrev pub selected_in : List User → Option User → Option User
selected_in users none = none
selected_in users (some u) = some (sync_selected users u)

-- `load` with the effect that follows. `read` makes the users of the answer.
abbrev pub loaded : (Value → List User) → Result Value → Page → Page
loaded read (ok v) p = record p {
  users = read v;
  selected = selected_in (read v) p.selected;
  loading = false;
}
loaded read (err e) p = record p {
  notices = thrown e "Failed to load users" ∷ p.notices;
  loading = false;
}

unfoldable pub load : (Value → List User) → Page → World → Page × World
unfolding api_fetch sync_selected
load read p w =
    let (r, w') = api_fetch as_json (load_request p.q) w in
    (loaded read r (record p { loading = true }), w')

abbrev pub add_request : User → String → Request
add_request u role = send_json post ("/users/" <> (u.id <> "/roles")) (("role", str role) ∷ [])

abbrev pub remove_request : User → String → Request
remove_request u role = send_empty delete ("/users/" <> (u.id <> ("/roles/" <> role)))

abbrev pub notice : Notice → Page × World → Page × World
notice n (p, w) = (record p { notices = n ∷ p.notices }, w)

-- What follows the request that changes the roles.
abbrev pub changed :
    (Value → List User) → String → String → Page → Page → Result Value × World → Page × World
changed read done bad before p (ok v, w) = notice (success done) (load read p w)
changed read done bad before p (err e, w) = notice (thrown e bad) (before, w)

abbrev pub add_role_to : (Value → List User) → Option User → Page → World → Page × World
add_role_to read none p w = (p, w)
add_role_to read (some u) p w =
    let after =
      changed read "Role added" "Failed to add role" p (record p { new_role = "" })
        (api_fetch as_json (add_request u p.new_role) w) in
    if p.new_role == "" then (p, w) else after

-- `if (!selected || !newRole) return;` and what follows.
unfoldable pub add_role : (Value → List User) → Page → World → Page × World
unfolding load api_fetch
add_role read p w = add_role_to read p.selected p w

unfoldable pub remove_role : (Value → List User) → String → Page → World → Page × World
unfolding load api_fetch
remove_role read role p w = elim p.selected [
  | none ↦ (p, w)
  | some u ↦
      changed read "Role removed" "Failed to remove role" p p
        (api_fetch as_json (remove_request u role) w)
]
