-- ===== src/Settings/Storage.antt =====
-- The storage settings, components/admin/StorageSettings.tsx: the form of what the server keeps as
-- texts, what is saved for it, and the test of the connection.
use helpdesk_go.Base.{
  ◌≡◌, ◌&&◌, truthy, ◌⊎◌, Bool, true, false, String, ◌==◌, Option, none, some, List, [],
  if◌then◌else◌,
}
use helpdesk_go.Http.{
  Json, null, str, obj, post, Request, World, Error, message, Result, ok, err, Value, value,
  undefined, blob, as_json, api_fetch, send_json,
}
use helpdesk_go.Http.Convert.{is_truthy}
use helpdesk_go.Api.Internal.{optional, text_json}
use helpdesk_go.Api.Upload.{lookup_field}

-- The settings as the server keeps them, all as texts.
pub record Stored : Type 0 where
  pub endpoint : Option String
  pub region : Option String
  pub bucket : Option String
  pub access_key_id : Option String
  pub secret_access_key : Option String
  pub use_ssl : Option String
  pub path_style : Option String

-- The form's values: the last two are check boxes.
pub record Values : Type 0 where
  pub endpoint : Option String
  pub region : Option String
  pub bucket : Option String
  pub access_key_id : Option String
  pub secret_access_key : Option String
  pub use_ssl : Option Bool
  pub path_style : Option Bool

-- `x === 'true'`
abbrev pub is_true_text : Option String → Bool
is_true_text none = false
is_true_text (some s) = s == "true"

-- `String(x ?? false)`
abbrev pub checked_text : Option Bool → String
checked_text none = "false"
checked_text (some true) = "true"
checked_text (some false) = "false"

-- What the effect puts into the form.
unfoldable pub form_values : Stored → Values
form_values s = record {
  endpoint = s.endpoint;
  region = s.region;
  bucket = s.bucket;
  access_key_id = s.access_key_id;
  secret_access_key = s.secret_access_key;
  use_ssl = some (is_true_text s.use_ssl);
  path_style = some (is_true_text s.path_style);
}

unfoldable pub payload : Values → Stored
payload v = record {
  endpoint = v.endpoint;
  region = v.region;
  bucket = v.bucket;
  access_key_id = v.access_key_id;
  secret_access_key = v.secret_access_key;
  use_ssl = some (checked_text v.use_ssl);
  path_style = some (checked_text v.path_style);
}

abbrev pub payload_fields : Stored → List (String × Json)
payload_fields s = optional "endpoint" (text_json s.endpoint) (
    optional "region" (text_json s.region) (
      optional "bucket" (text_json s.bucket) (
        optional "access_key_id" (text_json s.access_key_id) (
          optional "secret_access_key" (text_json s.secret_access_key) (
            optional "use_ssl" (text_json s.use_ssl)
              (optional "path_style" (text_json s.path_style) []))))))

pub data Notice : Type 0 where
  success : String → Notice
  failure : Json → Notice
  thrown : Error → Notice
  invalid : Notice

abbrev pub save_request : Values → Request
save_request v = send_json post "/settings/storage" (payload_fields (payload v))

-- The inputs with the rule `required` are given.
abbrev pub has_required : Values → Bool
has_required v =
    truthy v.endpoint && truthy v.bucket && truthy v.access_key_id && truthy v.secret_access_key

-- `onFinish`: a request that fails rejects, and nothing is shown.
abbrev save_notice : Result Value → Option Notice
save_notice (ok v) = some (success "Storage settings saved")
save_notice (err e) = none

-- `Save`: the form calls `onFinish` only where its values are valid.
unfoldable pub save : Values → World → Option Notice × World
unfolding api_fetch payload
save v w =
    let (r, w') = api_fetch as_json (save_request v) w in
    if has_required v then (save_notice r, w') else (some invalid, w)

-- `res.error || 'Connection failed'`
abbrev pub error_or : Option Json → Json
error_or none = str "Connection failed"
error_or (some j) = if is_truthy (some j) then j else str "Connection failed"

abbrev read_ok : Option Json → Option Json → Notice
read_ok okay error =
    if is_truthy okay then success "Connection successful" else failure (error_or error)

-- What the answer of the test shows. A value without properties has no `ok`.
unfoldable pub test_notice : Result Value → Notice
unfolding lookup_field
test_notice (ok (value (obj fs))) = read_ok (lookup_field "ok" fs) (lookup_field "error" fs)
test_notice (ok (value null)) = thrown (message "Cannot read properties of null")
test_notice (ok (value j)) = read_ok none none
test_notice (ok undefined) = thrown (message "Cannot read properties of undefined")
test_notice (ok blob) = read_ok none none
test_notice (err e) = thrown e

abbrev pub test_request : Values → Request
test_request v = send_json post "/settings/storage/test" (payload_fields (payload v))

-- `onTest`: `none` is a form whose fields do not validate, which sends nothing.
unfoldable pub test_connection : Option Values → World → Notice × World
unfolding api_fetch payload test_notice
test_connection none w = (invalid, w)
test_connection (some v) w =
    let (r, w') = api_fetch as_json (test_request v) w in (test_notice r, w')

abbrev pub IsBoolText : Option String → Type 0
IsBoolText o = (o ≡ some "true") ⊎ (o ≡ some "false")
