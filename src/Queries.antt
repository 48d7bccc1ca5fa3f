-- ===== src/Queries.antt =====
-- The queries and mutations of web/internal/src/api.ts: what each asks of the server, under which
-- key its answer is kept, and which keys a mutation makes stale. The cache itself is the library's.
pub mod Params
use helpdesk_go.Base.{
  ℕ, Bool, true, false, String, ◌==◌, ◌<>◌, Option, none, some, List, [], ◌∷◌, nonempty,
  if◌then◌else◌,
}
use helpdesk_go.Http.{Json, Request, get, post, send_json, send_empty}
use helpdesk_go.Api.Requester.{page_params}

pub data Key : Type 0 where
  tickets : Option String → Option (List (String × String)) → Key
  requester ticket : String → Key
  settings system_info : Key

pub record Query : Type 0 where
  pub key : Key
  pub request : Request
  pub enabled : Bool

pub record Mutation : Type 0 where
  pub request : Request
  pub invalidates : List Key

abbrev params_of : Option (List (String × String)) → List (String × String)
params_of none = []
params_of (some q) = q

unfoldable pub use_tickets : Option String → Option (List (String × String)) → Query
use_tickets cursor query = record {
  key = tickets cursor query;
  request = record (send_empty get "/tickets") { query = page_params cursor (params_of query) };
  enabled = true;
}

unfoldable pub use_requester : String → Query
use_requester id = record {
  key = requester id;
  request = send_empty get ("/requesters/" <> id);
  enabled = nonempty id;
}

unfoldable pub use_ticket : String → Query
use_ticket id = record {
  key = ticket id;
  request = send_empty get ("/tickets/" <> id);
  enabled = nonempty id;
}

unfoldable pub use_settings : Query
use_settings = record { key = settings; request = send_empty get "/settings"; enabled = true }

unfoldable pub use_system_info : Query
use_system_info = record {
  key = system_info;
  request = send_empty get "/system/info";
  enabled = true;
}

unfoldable pub save_mail_settings : List (String × Json) → Mutation
save_mail_settings fields = record {
  request = send_json post "/settings/mail" fields;
  invalidates = settings ∷ [];
}

unfoldable pub save_discord_settings : List (String × Json) → Mutation
save_discord_settings fields = record {
  request = send_json post "/settings/discord" fields;
  invalidates = settings ∷ system_info ∷ [];
}

unfoldable pub save_oidc_settings : List (String × Json) → Mutation
save_oidc_settings fields = record {
  request = send_json post "/settings/oidc" fields;
  invalidates = settings ∷ [];
}

abbrev recipient : Option String → List (String × String)
recipient none = []
recipient (some to) = if to == "" then [] else ("to", to) ∷ []

unfoldable pub send_test_email : Option String → Mutation
send_test_email to = record {
  request = record (send_empty post "/settings/mail/send-test") { query = recipient to };
  invalidates = settings ∷ [];
}

unfoldable pub test_connection : Mutation
test_connection = record {
  request = send_empty post "/test-connection";
  invalidates = settings ∷ [];
}
