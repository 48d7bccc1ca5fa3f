-- ===== src/Api/Generic.antt =====
-- The `api` object of web/internal/src/shared/api.ts, which the asset pages use.
use helpdesk_go.Base.{String, Option, none, some, List, []}
use helpdesk_go.Http.{
  Json, get, post, put, patch, delete, Method, File, Body, empty, json, Request, M, Value,
  ResponseType, as_json, api_fetch, json_headers,
}

-- What a caller passes as `data`: an object, or a `FormData` with a file.
pub data Data : Type 0 where
  object : List (String × Json) → Data
  form_data : File → Data

pub record Options : Type 0 where
  pub headers : Option (List (String × String))
  pub response_type : ResponseType

abbrev pub no_options : Options
no_options = record { headers = none; response_type = as_json }

-- `data ? JSON.stringify(data) : undefined`. A form has no enumerable property of its own, so its
-- text is that of the empty object.
abbrev pub data_body : Option Data → Body
data_body none = empty
data_body (some (object fields)) = json fields
data_body (some (form_data f)) = json []

-- `...options` comes last, so its headers take the place of the method's.
abbrev pub headers_or :
    Option (List (String × String)) → List (String × String) → List (String × String)
headers_or none hs = hs
headers_or (some given) hs = given

abbrev pub with_data : Method → String → Option Data → Options → Request
with_data m path d o = record {
  method = m;
  path = path;
  query = [];
  headers = headers_or o.headers json_headers;
  body = data_body d;
}

abbrev pub without_data : Method → String → List (String × String) → Options → Request
without_data m path query o = record {
  method = m;
  path = path;
  query = query;
  headers = headers_or o.headers [];
  body = empty;
}

-- `query` holds the parameters that the caller writes into the path.
unfoldable pub api_get : String → List (String × String) → Options → M Value
unfolding api_fetch
api_get path query o = api_fetch o.response_type (without_data get path query o)

unfoldable pub api_post : String → Option Data → Options → M Value
unfolding api_fetch
api_post path d o = api_fetch o.response_type (with_data post path d o)

unfoldable pub api_put : String → Option Data → Options → M Value
unfolding api_fetch
api_put path d o = api_fetch o.response_type (with_data put path d o)

unfoldable pub api_patch : String → Option Data → Options → M Value
unfolding api_fetch
api_patch path d o = api_fetch o.response_type (with_data patch path d o)

unfoldable pub api_delete : String → Options → M Value
unfolding api_fetch
api_delete path o = api_fetch o.response_type (without_data delete path [] o)
