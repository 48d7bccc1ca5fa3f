-- ===== src/Session/Profile.antt =====
-- The load of the profile in web/internal/src/components/UserSettings.tsx.
use helpdesk_go.Base.{
  ◌≡◌, refl, ◌↔◌, ap, arith, true, inl, inr, Bool-cases, Option, none, some, if◌then◌else◌,
}
use helpdesk_go.Http.{
  Json, null, str, obj, get, Request, Reply, failed, replied, World, is_ok, fetch, send_empty, log,
}
use helpdesk_go.Http.Laws.{fetch-log}
use helpdesk_go.Http.Convert.{is_truthy}
use helpdesk_go.Api.Upload.{lookup_field}
use helpdesk_go.Session.{Shown, browser, thrown_body}

pub record Profile : Type 0 where
  pub email : Json
  pub display_name : Json

-- The profile that the page and its form show, and the error.
pub record Page : Type 0 where
  pub profile : Option Profile
  pub error : Option Shown

-- `x || ''`
abbrev pub or_empty : Option Json → Json
or_empty none = str ""
or_empty (some j) = if is_truthy (some j) then j else str ""

-- What is read of the answer; reading a property of `null` throws, which `none` stands for.
unfoldable pub read_profile : Option Json → Option Profile
unfolding lookup_field
read_profile none = none
read_profile (some null) = none
read_profile (some (obj fs)) = some record {
  email = or_empty (lookup_field "email" fs);
  display_name = or_empty (lookup_field "display_name" fs);
}
read_profile (some j) = some record { email = str ""; display_name = str "" }

abbrev taken : Option Profile → Page → Page
taken none p = record p { error = some browser }
taken (some f) p = record p { profile = some f; error = none }

unfoldable pub profile_loaded : Reply → Page → Page
unfolding read_profile
profile_loaded failed p = record p { error = some browser }
profile_loaded (replied r) p =
    if is_ok r.status
    then taken (read_profile r.parsed) p
    else record p { error = some (thrown_body "Failed to load profile" r.text) }

abbrev pub profile_request : Request
profile_request = send_empty get "/me/profile"

unfoldable pub load_profile : World → Page → Page × World
unfolding fetch profile_loaded
load_profile w p = (profile_loaded (w.server w.sent profile_request) p, (fetch profile_request w).1)

-- The server answers with a profile.
abbrev pub SendsProfile : Reply → Profile → Type 0
SendsProfile failed f = ⊥
SendsProfile (replied r) f = (is_ok r.status ≡ true) × (read_profile r.parsed ≡ some f)

taken-loaded :
    (o : Option Profile) (p : Page) (f : Profile)
    → (taken o p ≡ record { profile = some f; error = none }) ↔ (o ≡ some f)
taken-loaded none p f = (λ h. ground arith, λ h. cc)
taken-loaded (some g) p f = (λ h. ap (λ q. q.profile) h, λ h. ground (arith, h))

profile_loaded-loaded :
    (reply : Reply) (p : Page) (f : Profile)
    → (profile_loaded reply p ≡ record { profile = some f; error = none }) ↔ SendsProfile reply f
unfolding profile_loaded
profile_loaded-loaded failed p f = (λ h. ground arith, λ h. absurd h)
profile_loaded-loaded (replied r) p f = elim (Bool-cases (is_ok r.status)) [
  | inl e ↦ rw e (
    λ h. (refl, (taken-loaded (read_profile r.parsed) p f).0 h),
    λ h. (taken-loaded (read_profile r.parsed) p f).1 h.1,
  )
  | inr e ↦ rw e (λ h. ground arith, λ h. cc)
]

-- A load of the profile sends one request, and the page shows a profile without an error afterwards
-- exactly when the server has answered with a status from 200 to 299 and that profile.
pub load_profile-loaded :
    (w : World) (p : Page) (f : Profile)
    → (((load_profile w p).0 ≡ record { profile = some f; error = none })
        ↔ SendsProfile (w.server w.sent profile_request) f)
      × ((load_profile w p).1 ≡ log profile_request w)
unfolding load_profile
load_profile-loaded w p f =
    (profile_loaded-loaded (w.server w.sent profile_request) p f, fetch-log profile_request w)
