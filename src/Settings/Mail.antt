-- ===== src/Settings/Mail.antt =====
-- The mail and the Discord settings, components/admin/MailSettings.tsx and
-- components/admin/DiscordSettings.tsx: the recipient of the test email, and the hints below the secrets.
use helpdesk_go.Base.{
  if-keep, runs-keep, runs, ◌≡◌, ◌≢◌, refl, arith, eq_iff, String, ◌==◌, or_text, Option, none,
  some, List, [], ◌∷◌, All, if◌then◌else◌,
}
use helpdesk_go.Queries.{Mutation, send_test_email}

-- What the page reads of the mail settings.
pub record Mail : Type 0 where
  pub smtp_from : Option String
  pub smtp_pass_configured : Option String
  pub imap_pass_configured : Option String

pub record Page : Type 0 where
  pub test_recipient : String
  pub sent : List Mutation

unfoldable pub mount : Page
mount = record { test_recipient = ""; sent = [] }

-- `x === 'true' ? text : undefined`, the hint below a password.
abbrev pub hint : String → Option String → Option String
hint text none = none
hint text (some s) = if s == "true" then some text else none

abbrev pub password_hint : Option String → Option String
password_hint = hint "A password is configured."

abbrev pub token_hint : Option String → Option String
token_hint = hint "A bot token is configured."

-- The effect: `setTestRecipient((current) => current || mail.smtp_from || '')`.
unfoldable pub mail_changed : Mail → Page → Page
mail_changed m p = record p {
  test_recipient = or_text (some p.test_recipient) (or_text m.smtp_from "");
}

-- The button is disabled without a recipient.
unfoldable pub click_send : Page → Page
unfolding send_test_email
click_send p =
    if p.test_recipient == ""
    then p
    else record p { sent = send_test_email (some p.test_recipient) ∷ p.sent }

pub data Event : Type 0 where
  loads : Mail → Event
  edits : String → Event
  clicks : Event

unfoldable pub step : Page → Event → Page
unfolding mail_changed click_send
step p (loads m) = mail_changed m p
step p (edits s) = record p { test_recipient = s }
step p clicks = click_send p

abbrev pub run : Page → List Event → Page
run = runs step

-- A test email to a recipient that is not empty.
abbrev pub IsNamed : Mutation → Type 0
IsNamed m = (to : String) × (to ≢ "") × (m ≡ send_test_email (some to))

click_send-IsNamed : (p : Page) → All IsNamed p.sent → All IsNamed (click_send p).sent
unfolding click_send
click_send-IsNamed p h =
    if-keep (λ q. All IsNamed q.sent) (p.test_recipient == "") p
      (record p { sent = send_test_email (some p.test_recipient) ∷ p.sent }) (λ _. h)
      (λ e. ((p.test_recipient, (λ k. ground (arith, eq_iff p.test_recipient "")), refl), h))

step-IsNamed : (p : Page) (e : Event) → All IsNamed p.sent → All IsNamed (step p e).sent
unfolding step mail_changed
step-IsNamed p (loads m) h = h
step-IsNamed p (edits s) h = h
step-IsNamed p clicks h = click_send-IsNamed p h

-- Whatever is loaded, typed and clicked, every test email that is sent names a recipient, in a text
-- that is not empty.
pub mail_tests-IsNamed : (es : List Event) → All IsNamed (run mount es).sent
unfolding mount
mail_tests-IsNamed es = runs-keep step (λ p. All IsNamed p.sent) step-IsNamed mount es tt
