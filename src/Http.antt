-- ===== src/Http.antt =====
-- The HTTP layer of the two web clients: `apiFetch` and the `api` object of
-- web/internal/src/shared/api.ts, and `apiFetch` of web/requester/src/api.ts.
-- The server is a field of the world: it answers each request, given the requests sent before.

pub mod Laws
pub mod Convert
use helpdesk_go.Base.{
  ℕ, ◌+◌, Bool, true, false, ◌&&◌, not, String, ◌≡◌, Option, none, some, List, [], ◌∷◌, ◌++◌, map,
  leb, eqb, if◌then◌else◌, ◌==◌, ◌<>◌,
}

-- A parsed JSON value, as the client reads it.
mutual
  pub data Json : Type 0 where
    null : Json
    bool : Bool → Json
    num : ℕ → Json
    str : String → Json
    arr : Items → Json
    obj : Fields → Json

  pub data Items : Type 0 where
    nil : Items
    item : Json → Items → Items

  pub data Fields : Type 0 where
    done : Fields
    field : String → Json → Fields → Fields

pub data Method : Type 0 where
  get post put patch delete : Method

-- A `File` of the browser. Its content takes no part in what the client decides.
pub record File : Type 0 where
  pub name : String
  pub size : ℕ
  pub mime : String

-- What a request carries: nothing, the text of a JSON object, a form with a file, or the file.
pub data Body : Type 0 where
  empty : Body
  json : List (String × Json) → Body
  form : File → Body
  raw : File → Body

-- `query` holds the parameters before their encoding into the URL.
pub record Request : Type 0 where
  pub method : Method
  pub path : String
  pub query : List (String × String)
  pub headers : List (String × String)
  pub body : Body

-- `text` is none where the body cannot be read, and `parsed` is none where it is no JSON.
pub record Response : Type 0 where
  pub status : ℕ
  pub text : Option String
  pub parsed : Option Json

-- `failed`: the promise of `fetch` rejects, so no response arrived.
pub data Reply : Type 0 where
  failed : Reply
  replied : Response → Reply

-- `sent` has the latest request at the head; `slept` counts the milliseconds of `setTimeout` waits.
pub record World : Type 0 where
  pub server : List Request → Request → Reply
  pub sent : List Request
  pub slept : ℕ

-- The errors that the clients throw.
pub data Error : Type 0 where
  network : Error
  status_text : ℕ → String → Error
  text_only : String → Error
  unreadable : Error
  message : String → Error
  upload_status : ℕ → Error

pub data Result {ℓ} (A : Type ℓ) : Type ℓ where
  ok : A → Result A
  err : Error → Result A

-- An `async` function: it sends requests, and resolves or rejects.
abbrev pub M : Type 0 → Type 0
M A = World → Result A × World

abbrev pub pure : {A : Type 0} → A → M A
pure a w = (ok a, w)

abbrev pub throw : {A : Type 0} → Error → M A
throw e w = (err e, w)

infixl 5 ◌>>=◌ ◌>>◌
abbrev pub then_do : {A B : Type 0} → Result A × World → (A → M B) → Result B × World
then_do (ok a, w) f = f a w
then_do (err e, w) f = (err e, w)

abbrev pub ◌>>=◌ : {A B : Type 0} → M A → (A → M B) → M B
◌>>=◌ m f w = then_do (m w) f

abbrev pub ◌>>◌ : {A B : Type 0} → M A → M B → M B
◌>>◌ m k = m >>= λ _. k

abbrev pub or_catch : {A : Type 0} → Result A × World → (Error → M A) → Result A × World
or_catch (ok a, w) h = (ok a, w)
or_catch (err e, w) h = h e w

-- `try { return await m } catch (e) { h }`
abbrev pub catch : {A : Type 0} → M A → (Error → M A) → M A
catch m h w = or_catch (m w) h

abbrev pub after_reply : Reply → World → Result Response × World
after_reply failed w = (err network, w)
after_reply (replied r) w = (ok r, w)

abbrev pub log : Request → World → World
log q w = record w { sent = q ∷ w.sent }

-- `await fetch(url, init)`
unfoldable pub fetch : Request → M Response
fetch q w = after_reply (w.server w.sent q) (log q w)

-- `await new Promise((r) => setTimeout(r, ms))`
abbrev pub sleep : ℕ → M (Unit {0})
sleep ms w = (ok tt, record w { slept = w.slept + ms })

-- `response.ok`
abbrev pub is_ok : ℕ → Bool
is_ok status = leb 200 status && leb status 299

abbrev pub text_or_empty : Option String → String
text_or_empty none = ""
text_or_empty (some t) = t

-- What a call resolves to: `undefined` after a 204, else a blob or the parsed body.
pub data Value : Type 0 where
  undefined blob : Value
  value : Json → Value

pub data ResponseType : Type 0 where
  as_json as_blob : ResponseType

abbrev pub read_json : Option Json → Result Value
read_json none = err unreadable
read_json (some j) = ok (value j)

abbrev pub read_blob : Option String → Result Value
read_blob none = err unreadable
read_blob (some t) = ok blob

abbrev pub read_body : ResponseType → Response → Result Value
read_body as_json r = read_json r.parsed
read_body as_blob r = read_blob r.text

-- What the internal client's `apiFetch` makes of a response.
unfoldable pub internal_result : ResponseType → Response → Result Value
internal_result type r =
    if not (is_ok r.status)
    then err (status_text r.status (text_or_empty r.text))
    else if eqb r.status 204
    then ok undefined
    else read_body type r

abbrev pub requester_error : Option String → Error
requester_error none = unreadable
requester_error (some t) = text_only t

-- What the requester client's `apiFetch` makes of a response; `null` after a 204.
unfoldable pub requester_result : Response → Result Value
requester_result r =
    if not (is_ok r.status)
    then err (requester_error r.text)
    else if eqb r.status 204
    then ok (value null)
    else read_json r.parsed

abbrev pub bearer : Option String → List (String × String)
bearer none = []
bearer (some token) = if token == "" then [] else ("Authorization", "Bearer " <> token) ∷ []

-- The prefix `/api` of every URL is left out of `path`.
unfoldable pub api_fetch : ResponseType → Request → M Value
unfolding fetch internal_result
api_fetch type q = fetch q >>= λ r w. (internal_result type r, w)

unfoldable pub requester_fetch : Option String → Request → M Value
unfolding fetch requester_result
requester_fetch token q =
    fetch (record q { headers = q.headers ++ bearer token }) >>= λ r w. (requester_result r, w)

abbrev pub json_headers : List (String × String)
json_headers = ("Content-Type", "application/json") ∷ []

-- A request with a JSON body, and one without a body.
abbrev pub send_json : Method → String → List (String × Json) → Request
send_json m path body = record {
  method = m;
  path = path;
  query = [];
  headers = json_headers;
  body = json body;
}

abbrev pub send_empty : Method → String → Request
send_empty m path = record { method = m; path = path; query = []; headers = []; body = empty }
