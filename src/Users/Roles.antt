-- ===== src/Users/Roles.antt =====
-- Which roles can be given to the selected user, and what giving one sends.
use helpdesk_go.Base.{
  ◌≡◌, refl, ap, ◌∙◌, arith, Bool, true, false, not, ◌&&◌, String, ◌==◌, eq_iff, none, some, List,
  [], ◌∷◌, includes, if◌then◌else◌,
}
use helpdesk_go.Http.{World, Value, Result, ok, err, log, as_json, api_fetch}
use helpdesk_go.Http.Laws.{api_fetch-log}
use helpdesk_go.Users.{
  User, Page, role_options, load_request, add_request, load, changed, add_role_to, add_role,
}

-- A role is offered exactly when the server knows it and the user does not hold it.
pub role_options_iff :
    (roles : List String) (u : User) (r : String)
    → includes (role_options roles u) r ≡ includes roles r && not (includes u.roles r)
unfolding role_options
role_options_iff [] u r = refl
role_options_iff (s ∷ roles) u r = ground (arith, eq_iff s r, role_options_iff roles u r)

abbrev pub is_accepted : Result Value → Bool
is_accepted (ok v) = true
is_accepted (err e) = false

load-sent :
    (read : Value → List User) (p : Page) (w : World) → (load read p w).1 ≡ log (load_request p.q) w
unfolding load
load-sent read p w = api_fetch-log as_json (load_request p.q) w

changed-sent :
    (read : Value → List User) (done bad : String) (before p : Page) (x : Result Value × World)
    → (changed read done bad before p x).1
      ≡ (if is_accepted x.0 then log (load_request p.q) x.1 else x.1)
changed-sent read done bad before p (ok v, w) = load-sent read p w
changed-sent read done bad before p (err e, w) = refl

add_role_to-sent :
    (read : Value → List User) (u : User) (p : Page) (w : World)
    → (add_role_to read (some u) p w).1 ≡ (
        if p.new_role == ""
        then w
        else if is_accepted (api_fetch as_json (add_request u p.new_role) w).0
        then log (load_request p.q) (log (add_request u p.new_role) w)
        else log (add_request u p.new_role) w)
add_role_to-sent read u p w = ground (
  arith,
  api_fetch-log as_json (add_request u p.new_role) w,
  changed-sent read "Role added" "Failed to add role" p (record p { new_role = "" })
      (api_fetch as_json (add_request u p.new_role) w),
)

-- Giving a role sends nothing unless a user and a role are selected; otherwise it sends the role,
-- and asks for the users again exactly when the server has accepted it.
pub add_role-sent :
    (read : Value → List User) (p : Page) (w : World)
    → (p.selected ≡ none → add_role read p w ≡ (p, w))
      × ((u : User)
          → p.selected ≡ some u
          → (add_role read p w).1 ≡ (
              if p.new_role == ""
              then w
              else if is_accepted (api_fetch as_json (add_request u p.new_role) w).0
              then log (load_request p.q) (log (add_request u p.new_role) w)
              else log (add_request u p.new_role) w))
unfolding add_role
add_role-sent read p w = (
  λ e. ap (λ o. add_role_to read o p w) e,
  λ u e. ap (λ o. (add_role_to read o p w).1) e ∙ add_role_to-sent read u p w,
)
