-- ===== src/Session/Forms.antt =====
-- How the forms of the session end.
use helpdesk_go.Base.{◌≡◌, ◌≢◌, ◌↔◌, refl, true, false, String, none, some, arith}
use helpdesk_go.Http.{Reply, failed, replied, Response, World, is_ok, log}
use helpdesk_go.Http.Laws.{fetch-log}
use helpdesk_go.Session.{
  Form, thrown, login, login_result, login_request, change_password, password_result,
  password_request, begin,
}

-- The server has accepted: a response with a status from 200 to 299.
abbrev pub Accepts : Reply → Type 0
Accepts failed = ⊥
Accepts (replied r) = is_ok r.status ≡ true

-- A form that is at rest and shows either an error or nothing.
pub record IsSettled (f : Form) (accepted : Type 0) : Type 0 where
  pub rests : f.loading ≡ false
  pub clear : accepted → f.error ≡ none
  pub told : (accepted → ⊥) → f.error ≢ none

settled_login :
    (r : Reply) (f : Form)
    → ((login_result r (begin f)).1 ≡ true ↔ Accepts r)
      × IsSettled (login_result r (begin f)).0 (Accepts r)
settled_login failed f = (
  (λ h. ground arith, λ a. absurd a),
  record { rests = refl; clear = λ a. absurd a; told = λ n. ground arith },
)
settled_login (replied r) f = (
  (λ h. ground arith, λ a. ground arith),
  record { rests = ground arith; clear = λ a. ground arith; told = λ n. ground arith },
)

-- A sign-in sends the user on exactly when the server has accepted it; it sends one request, and
-- afterwards the form is at rest and shows an error exactly when it was not accepted.
pub login_settles :
    (username password : String) (w : World) (f : Form)
    → let answer = w.server w.sent (login_request username password) in
      let result = login username password w f in
      ((result.0.1 ≡ true) ↔ Accepts answer)
      × IsSettled result.0.0 (Accepts answer)
      × (result.1 ≡ log (login_request username password) w)
unfolding login
login_settles username password w f =
    let q = login_request username password in
    let (goes, settled) = settled_login (w.server w.sent q) f in (goes, settled, fetch-log q w)

settled_password :
    (r : Reply) (f : Form)
    → IsSettled (password_result r (begin f)) (Accepts r)
      × ((password_result r (begin f)).note ≢ none ↔ Accepts r)
settled_password failed f = (
  record { rests = refl; clear = λ a. absurd a; told = λ n. ground arith },
  (λ h. ground arith, λ a. absurd a),
)
settled_password (replied r) f = (
  record { rests = ground arith; clear = λ a. ground arith; told = λ n. ground arith },
  (λ h. ground arith, λ a. ground arith),
)

-- A change of the password sends one request; afterwards the form is at rest, it shows an error
-- exactly when the server has not accepted, and its success exactly when the server has; and it
-- shows that the password is kept elsewhere when the status is 409.
pub change_password_settles :
    (old new : String) (w : World) (f : Form)
    → let answer = w.server w.sent (password_request old new) in
      let result = change_password old new w f in
      IsSettled result.0 (Accepts answer)
      × (result.0.note ≢ none ↔ Accepts answer)
      × ((r : Response)
          → answer ≡ replied r
          → r.status ≡ 409
          → result.0.error ≡ some (thrown "Password is managed by your identity provider."))
      × (result.1 ≡ log (password_request old new) w)
unfolding change_password
change_password_settles old new w f =
    let q = password_request old new in
    let (settled, noted) = settled_password (w.server w.sent q) f in
    (settled, noted, λ r e h. rw e (ground arith), fetch-log q w)
