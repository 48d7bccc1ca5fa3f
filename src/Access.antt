-- ===== src/Access.antt =====
-- Who may see which page of the internal client: web/internal/src/shared/auth.tsx,
-- web/internal/src/shared/auth-utils.ts and the route table of web/internal/src/App.tsx.
pub mod Routes
pub mod Laws
use helpdesk_go.Base.{
  Bool, true, false, ◌||◌, ◌&&◌, not, String, Option, none, some, List, [], ◌∷◌, any, includes,
  if◌then◌else◌,
}
use helpdesk_go.Http.{M, pure, catch, Value, get, as_json, api_fetch, send_empty, ◌>>=◌}

pub record Me : Type 0 where
  pub id : Option String
  pub external_id : Option String
  pub email : Option String
  pub display_name : Option String
  pub roles : Option (List String)

-- What `useMe` returns: `isLoading`, or the data, none where the request failed.
pub data MeQuery : Type 0 where
  loading : MeQuery
  loaded : Option Me → MeQuery

-- The query function of `useMe`: a failed request gives `null`.
unfoldable pub fetch_me : M (Option Value)
unfolding api_fetch
fetch_me = catch (api_fetch as_json (send_empty get "/me") >>= λ v. pure (some v)) (λ e. pure none)

abbrev pub roles_or_empty : Option (List String) → List String
roles_or_empty none = []
roles_or_empty (some rs) = rs

-- `data?.roles || []`
abbrev pub roles_of : Option Me → List String
roles_of none = []
roles_of (some me) = roles_or_empty me.roles

abbrev pub is_some {ℓ} : {A : Type ℓ} → Option A → Bool
is_some none = false
is_some (some _) = true

-- What a guard renders.
pub data Gate : Type 0 where
  nothing outlet : Gate
  navigate : String → Gate

unfoldable pub require_role : String → MeQuery → Gate
require_role role loading = nothing
require_role role (loaded me) =
    let is_super = includes (roles_of me) "admin" in
    if not (is_some me) || not (is_super || includes (roles_of me) role)
    then navigate "/"
    else outlet

unfoldable pub require_any_role : List String → MeQuery → Gate
require_any_role allowed loading = nothing
require_any_role allowed (loaded me) =
    let is_super = includes (roles_of me) "admin" in
    let has_any_role = any (includes (roles_of me)) allowed in
    if not (is_some me) || not (is_super || has_any_role) then navigate "/" else outlet
