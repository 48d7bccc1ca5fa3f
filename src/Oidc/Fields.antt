-- ===== src/Oidc/Fields.antt =====
-- The inputs of the form of web/internal/src/components/admin/OIDCSettings.tsx beside the role mapping.
use helpdesk_go.Base.{String, ◌<>◌, Option, none, some, List, [], ◌∷◌}

-- An input: its name, its label, and the value that it starts with. A required one has the message of its
-- rule, or none of its own.
pub data Rule : Type 0 where
  optional required : Rule
  required_by : String → Rule

pub record Input : Type 0 where
  pub name : String
  pub label : String
  pub rule : Rule
  pub initial : Option String

abbrev pub input : String → String → Rule → Option String → Input
input name label rule initial = record {
  name = name;
  label = label;
  rule = rule;
  initial = initial;
}

abbrev pub oidc_inputs : List Input
oidc_inputs =
    input "issuer" "Issuer (OIDC Endpoint)" (required_by "Issuer URL is required") none
    ∷ input "client_id" "Client ID" required none
    ∷ input "client_secret" "Client Secret" required none
    ∷ input "scopes" "Scopes" optional (some "openid,profile,email")
    ∷ input "group_claim_name" "Group Claim Name" optional (some "groups")
    ∷ input "username_claim" "Username Claim" optional (some "preferred_username")
    ∷ input "admin_group" "Admin Group" optional none
    ∷ input "auto_onboard" "Automatic Onboarding (allow new users to login)" optional none
    ∷ input "redirect_url" "Redirect URL Override" optional none
    ∷ []

-- The two inputs of each row of the role mapping.
abbrev pub mapping_inputs : List (String × String)
mapping_inputs = ("value", "Group is required") ∷ ("roles", "Role is required") ∷ []

-- `window.location`'s protocol and host give the address that is shown above the form.
unfoldable pub redirect_uri : (protocol host : String) → String
redirect_uri protocol host = protocol <> ("//" <> (host <> "/api/auth/oidc/callback"))
