-- ===== src/Session.antt =====
-- Signing in and the user's own settings: web/internal/src/components/Login.tsx,
-- web/internal/src/components/UserSettings.tsx, and the local mode of web/requester/src/App.tsx.
pub mod Forms
pub mod Profile
pub mod Portal
use helpdesk_go.Base.{
  ℕ, eqb, Bool, true, false, not, String, ◌==◌, Option, none, some, List, [], ◌∷◌, if◌then◌else◌,
}
use helpdesk_go.Http.{
  Json, str, get, post, patch, Request, Response, Reply, failed, replied, World, Error, Result, ok,
  err, then_do, M, fetch, is_ok, send_json, send_empty,
}

-- What is shown after `catch (e) { setError(e?.message || fallback) }`: the text that was thrown, the
-- browser's own message, or the fallback.
pub data Shown : Type 0 where
  thrown : String → Shown
  browser : Shown
  fallback : String → Shown

abbrev pub shown_text : String → String → Shown
shown_text d s = if s == "" then fallback d else thrown s

-- `throw new Error(await res.text())`; a body that cannot be read throws the browser's error.
abbrev pub thrown_body : String → Option String → Shown
thrown_body d none = browser
thrown_body d (some s) = shown_text d s

-- A form of these pages: `loading`, `error` and `ok`.
pub record Form : Type 0 where
  pub loading : Bool
  pub error : Option Shown
  pub note : Option String

-- What a form does before its request.
abbrev pub begin : Form → Form
begin f = record { loading = true; error = none; note = none }

abbrev pub failed_with : Shown → Form → Form
failed_with e f = record f { loading = false; error = some e }

abbrev pub done_with : String → Form → Form
done_with n f = record f { loading = false; note = some n }

-- `onFinish` of the login: the form, and whether the user is known anew and sent to /tickets.
abbrev pub login_result : Reply → Form → Form × Bool
login_result failed f = (failed_with browser f, false)
login_result (replied r) f =
    if not (is_ok r.status)
    then (failed_with (thrown_body "Login failed" r.text) f, false)
    else (record f { loading = false }, true)

abbrev pub login_request : String → String → Request
login_request username password =
    send_json post "/login" (("username", str username) ∷ ("password", str password) ∷ [])

unfoldable pub login : String → String → World → Form → (Form × Bool) × World
unfolding fetch
login username password w f =
    let q = login_request username password in
    (login_result (w.server w.sent q) (begin f), (fetch q w).1)

-- `saveProfile`
abbrev pub profile_result : Reply → Form → Form
profile_result failed f = failed_with browser f
profile_result (replied r) f =
    if not (is_ok r.status)
    then failed_with (thrown_body "Failed to update profile" r.text) f
    else done_with "Profile updated" f

unfoldable pub save_profile : String → String → World → Form → Form × World
unfolding fetch
save_profile display_name email w f =
    let q =
      send_json patch "/me/profile"
        (("display_name", str display_name) ∷ ("email", str email) ∷ []) in
    (profile_result (w.server w.sent q) (begin f), (fetch q w).1)

-- `changePassword`: a 409 says that the password is kept elsewhere.
abbrev pub password_result : Reply → Form → Form
password_result failed f = failed_with browser f
password_result (replied r) f =
    if eqb r.status 409
    then failed_with (thrown "Password is managed by your identity provider.") f
    else if not (is_ok r.status)
    then failed_with (thrown_body "Failed to change password" r.text) f
    else done_with "Password changed" f

abbrev pub password_request : String → String → Request
password_request old new =
    send_json post "/me/password" (("old_password", str old) ∷ ("new_password", str new) ∷ [])

unfoldable pub change_password : String → String → World → Form → Form × World
unfolding fetch
change_password old new w f =
    let q = password_request old new in
    (password_result (w.server w.sent q) (begin f), (fetch q w).1)
