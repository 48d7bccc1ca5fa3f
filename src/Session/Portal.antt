-- ===== src/Session/Portal.antt =====
-- The gate of the requester's client, web/requester/src/App.tsx: what is shown, from the answers to
-- the questions that it asks the server.
pub mod Routes
use helpdesk_go.Base.{
  ◌≡◌, refl, ◌⊎◌, inl, inr, ◌↔◌, arith, Bool, true, false, not, String, Option, none, some, List,
  [], ◌∷◌, Bool-cases, if◌then◌else◌,
}
use helpdesk_go.Http.{Reply, failed, replied, is_ok}

pub record Portal : Type 0 where
  pub local_ready : Bool
  pub local_authed : Bool
  pub failure : Option String
  pub oidc_configured : Bool

-- What `useAuth` of the OIDC library says.
pub record Auth : Type 0 where
  pub is_loading : Bool
  pub is_authenticated : Bool

unfoldable pub mount : Bool → Portal
mount local_mode = record {
  local_ready = not local_mode;
  local_authed = false;
  failure = none;
  oidc_configured = false;
}

-- The answers as they arrive, and the submission of the form; `system_info` says whether OIDC is
-- configured, `none` where the question failed.
pub data Event : Type 0 where
  system_info : Option Bool → Event
  me_answered login_answered logout_answered : Reply → Event
  login_submitted : Event

abbrev me_done : Reply → Portal → Portal
me_done failed p = record p { local_ready = true }
me_done (replied r) p = record p { local_authed = is_ok r.status; local_ready = true }

-- A request that fails rejects inside the handler, which then changes nothing.
abbrev login_done : Reply → Portal → Portal
login_done failed p = p
login_done (replied r) p =
    if not (is_ok r.status)
    then record p { failure = some "Invalid credentials" }
    else record p { local_authed = true }

abbrev logout_done : Reply → Portal → Portal
logout_done failed p = p
logout_done (replied r) p = record p { local_authed = false }

unfoldable pub step : Portal → Event → Portal
step p (system_info none) = p
step p (system_info (some configured)) = record p { oidc_configured = configured }
step p (me_answered r) = me_done r p
step p (login_answered r) = login_done r p
step p (logout_answered r) = logout_done r p
step p login_submitted = record p { failure = none }

-- What has happened, the latest first.
unfoldable pub run : Bool → List Event → Portal
unfolding mount step
run local_mode [] = mount local_mode
run local_mode (e ∷ es) = step (run local_mode es) e

pub data View : Type 0 where
  loading login_button app : View
  sign_in : Option String → Bool → View

unfoldable pub view : Bool → Auth → Portal → View
view local_mode auth p =
    if not local_mode
    then (if auth.is_loading
        then loading
        else if not auth.is_authenticated
        then login_button
        else app)
    else if not p.local_ready
    then loading
    else if not p.local_authed
    then sign_in p.failure p.oidc_configured
    else app

-- The question who the user is has been answered, well or badly, or has failed.
abbrev pub IsAsked : List Event → Type 0
IsAsked [] = ⊥
IsAsked (me_answered r ∷ es) = Unit
IsAsked (system_info i ∷ es) = IsAsked es
IsAsked (login_answered r ∷ es) = IsAsked es
IsAsked (logout_answered r ∷ es) = IsAsked es
IsAsked (login_submitted ∷ es) = IsAsked es

-- An answer that lets the user in: the server knows the user, or accepts the sign-in.
abbrev pub LetsIn : Event → Type 0
LetsIn (me_answered (replied r)) = is_ok r.status ≡ true
LetsIn (login_answered (replied r)) = is_ok r.status ≡ true
LetsIn _ = ⊥

-- An answer that turns the user out: the server does not know the user, or has answered a sign-out,
-- with success or not.
abbrev pub TurnsOut : Event → Type 0
TurnsOut (me_answered (replied r)) = is_ok r.status ≡ false
TurnsOut (logout_answered (replied r)) = Unit
TurnsOut _ = ⊥

-- Some answer has let the user in, and none since has turned the user out.
abbrev pub IsIn : List Event → Type 0
IsIn [] = ⊥
IsIn (e ∷ es) = LetsIn e ⊎ ((¬ TurnsOut e) × IsIn es)

ready-IsAsked : (es : List Event) → (run true es).local_ready ≡ true ↔ IsAsked es
unfolding run step mount
ready-IsAsked [] = (λ h. ground arith, λ a. absurd a)
ready-IsAsked (me_answered failed ∷ es) = (λ h. tt, λ a. refl)
ready-IsAsked (me_answered (replied r) ∷ es) = (λ h. tt, λ a. refl)
ready-IsAsked (login_answered failed ∷ es) = ready-IsAsked es
ready-IsAsked (login_answered (replied r) ∷ es) =
    let (f, g) = ready-IsAsked es in (λ h. f (ground arith), λ a. ground (arith, g a))
ready-IsAsked (logout_answered failed ∷ es) = ready-IsAsked es
ready-IsAsked (logout_answered (replied r) ∷ es) = ready-IsAsked es
ready-IsAsked (system_info none ∷ es) = ready-IsAsked es
ready-IsAsked (system_info (some c) ∷ es) = ready-IsAsked es
ready-IsAsked (login_submitted ∷ es) = ready-IsAsked es

-- An answer or an event that neither lets the user in nor turns the user out.
IsIn-passes :
    (e : Event) (es : List Event) (b : Bool)
    → ¬ LetsIn e
    → ¬ TurnsOut e
    → b ≡ true ↔ IsIn es
    → b ≡ true ↔ IsIn (e ∷ es)
IsIn-passes e es b n m (f, g) =
    (λ h. inr (m, f h), λ a. elim a [ inl l ↦ absurd (n l) | inr (k, i) ↦ g i ])

authed-IsIn : (es : List Event) → (run true es).local_authed ≡ true ↔ IsIn es
unfolding run step mount
authed-IsIn [] = (λ h. ground arith, λ a. absurd a)
authed-IsIn (me_answered failed ∷ es) =
    IsIn-passes (me_answered failed) es _ (λ l. l) (λ t. t) (authed-IsIn es)
authed-IsIn (me_answered (replied r) ∷ es) =
    (λ h. inl h, λ a. elim a [ inl n ↦ n | inr (t, b) ↦ ground (arith, t) ])
authed-IsIn (login_answered failed ∷ es) =
    IsIn-passes (login_answered failed) es _ (λ l. l) (λ t. t) (authed-IsIn es)
authed-IsIn (login_answered (replied r) ∷ es) =
    let (f, g) = authed-IsIn es in
    (
      λ h. elim (Bool-cases (is_ok r.status)) [
        | inl e ↦ inl e
        | inr e ↦ inr (λ t. t, f (ground arith))
      ],
      λ a. elim a [ inl e ↦ ground arith | inr (t, b) ↦ ground (arith, g b) ],
    )
authed-IsIn (logout_answered failed ∷ es) =
    IsIn-passes (logout_answered failed) es _ (λ l. l) (λ t. t) (authed-IsIn es)
authed-IsIn (logout_answered (replied r) ∷ es) =
    (λ h. ground arith, λ a. elim a [ inl n ↦ absurd n | inr (t, b) ↦ absurd (t tt) ])
authed-IsIn (system_info none ∷ es) =
    IsIn-passes (system_info none) es _ (λ l. l) (λ t. t) (authed-IsIn es)
authed-IsIn (system_info (some c) ∷ es) =
    IsIn-passes (system_info (some c)) es _ (λ l. l) (λ t. t) (authed-IsIn es)
authed-IsIn (login_submitted ∷ es) =
    IsIn-passes login_submitted es _ (λ l. l) (λ t. t) (authed-IsIn es)

-- In the local mode, whatever the server answers and in whatever order, the application is shown
-- exactly when the question who the user is has been answered or has failed, some answer has let the
-- user in (a known user, or an accepted sign-in), and none that came after it has turned the user out
-- (an unknown user, or a sign-out that was answered, with success or not).
pub app_shown_iff :
    (auth : Auth) (es : List Event) → (view true auth (run true es) ≡ app) ↔ (IsAsked es × IsIn es)
unfolding view
app_shown_iff auth es =
    let (f, g) = ready-IsAsked es in
    let (h, k) = authed-IsIn es in
    (λ e. (f (ground arith), h (ground arith)), λ (a, b). ground (arith, g a, k b))
