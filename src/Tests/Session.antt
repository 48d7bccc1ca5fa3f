-- ===== src/Tests/Session.antt =====
-- Signing in against concrete servers.
use helpdesk_go.Base.{◌≡◌, ◌↔◌, refl, true, false, List, [], ◌∷◌, some, none, ℕ}
use helpdesk_go.Http.{World, replied, Response}
use helpdesk_go.Session.{Form}
use helpdesk_go.Session.Portal.{
  Auth, Event, me_answered, login_submitted, login_answered, logout_answered, run, view, app,
  sign_in, IsAsked, IsIn, app_shown_iff,
}

abbrev answer : ℕ → Response
answer status = record { status = status; text = some "no"; parsed = none }

abbrev world : ℕ → World
world status = record { server = λ sent q. replied (answer status); sent = []; slept = 0 }

abbrev blank : Form
blank = record { loading = false; error = none; note = none }

abbrev no_oidc : Auth
no_oidc = record { is_loading = false; is_authenticated = false }

-- The latest first: refused as unknown, then signed in.
abbrev visit : List Event
visit =
    login_answered (replied (answer 200))
    ∷ login_submitted
    ∷ me_answered (replied (answer 401))
    ∷ []

shows_app : view true no_oidc (run true visit) ≡ app
unfolding view run
shows_app = refl

-- A sign-out that the server refuses counts as one.
refused_sign_out :
    view true no_oidc (run true (logout_answered (replied (answer 500)) ∷ visit))
    ≡ sign_in none false
unfolding view run
refused_sign_out = refl

app_shown_iff_example : (view true no_oidc (run true visit) ≡ app) ↔ (IsAsked visit × IsIn visit)
app_shown_iff_example = app_shown_iff no_oidc visit
