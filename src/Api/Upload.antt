-- ===== src/Api/Upload.antt =====
-- `uploadAttachment` of web/internal/src/shared/api.ts and of web/requester/src/api.ts: ask for an
-- upload URL, put the file there, and register the attachment, in at most five attempts.
-- The progress callback, which only draws a bar, is left out.
pub mod Attempts
pub mod Outcomes
pub mod Clients
use Prim.Native.String.{[] as empty, ◌∷◌ as ◌∷∷◌}
use helpdesk_go.Base.{
  ℕ, zero, suc, ◌+◌, ◌≡◌, arith, String, ◌==◌, ◌<>◌, Option, none, some, List, [], ◌∷◌,
  if◌then◌else◌, or_text,
}
use helpdesk_go.Http.{
  Items, nil, item, Json, null, str, num, obj, arr, bool, Fields, done, field, get, post, put, File,
  raw, Request, Response, Reply, failed, replied, World, Error, message, upload_status, Result, ok,
  err, M, pure, throw, then_do, ◌>>=◌, ◌>>◌, log, or_catch, sleep, fetch, is_ok, text_or_empty,
  Value, value, undefined, blob, as_json, api_fetch, requester_fetch, send_json,
}
use helpdesk_go.Http.Convert.{text_of, decimal}
use helpdesk_go.Api.Internal.{optional}

-- The value of a property, `none` where the object has none.
unfoldable pub lookup_field : String → Fields → Option Json
lookup_field key done = none
lookup_field key (field k v rest) = if k == key then some v else lookup_field key rest

pub record Presign : Type 0 where
  pub upload_url : String
  pub headers : List (String × String)
  pub attachment_id : Option Json

-- `Object.entries(presign.headers || {})`
header_entries : Fields → List (String × String)
unfolding text_of
header_entries done = []
header_entries (field k v rest) = (k, text_of (some v)) ∷ header_entries rest

-- The entries of an array, and of a text of characters with one unit each, by their indices.
item_entries : ℕ → Items → List (String × String)
unfolding decimal text_of
item_entries n nil = []
item_entries n (item v rest) = (decimal n, text_of (some v)) ∷ item_entries (suc n) rest

char_entries : ℕ → String → List (String × String)
unfolding decimal
char_entries n empty = []
char_entries n (c ∷∷ s) = (decimal n, c ∷∷ "") ∷ char_entries (suc n) s

abbrev headers_of : Option Json → List (String × String)
headers_of (some (obj fs)) = header_entries fs
headers_of (some (arr xs)) = item_entries 0 xs
headers_of (some (str s)) = char_entries 0 s
headers_of (some _) = []
headers_of none = []

abbrev presign_fields : Fields → Presign
presign_fields fs = record {
  upload_url = text_of (lookup_field "upload_url" fs);
  headers = headers_of (lookup_field "headers" fs);
  attachment_id = lookup_field "attachment_id" fs;
}

-- Reading a property of `undefined` or `null` throws.
unfoldable pub read_presign : Value → Result Presign
unfolding lookup_field header_entries item_entries char_entries text_of
read_presign (value (obj fs)) = ok (presign_fields fs)
read_presign (value null) = err (message "Cannot read properties of null")
read_presign (value _) = ok (presign_fields done)
read_presign undefined = err (message "Cannot read properties of undefined")
read_presign blob = ok (presign_fields done)

abbrev pub presign_request : String → File → Request
presign_request ticket_id f =
    send_json post ("/tickets/" <> ticket_id <> "/attachments/presign")
      (("filename", str f.name) ∷ ("bytes", num f.size) ∷ ("mime", str f.mime) ∷ [])

abbrev pub put_request : Presign → File → Request
put_request p f = record {
  method = put;
  path = p.upload_url;
  query = [];
  headers = p.headers;
  body = raw f;
}

abbrev pub finalize_request : String → Presign → File → Request
finalize_request ticket_id p f = send_json post ("/tickets/" <> ticket_id <> "/attachments") (
    optional "attachment_id" p.attachment_id
      (("filename", str f.name) ∷ ("bytes", num f.size) ∷ ("mime", str f.mime) ∷ []))

-- `xhr.onload` and `xhr.onerror`. `fail` makes the error from the response.
abbrev pub put_result : (Response → Error) → Result Response → Result (Unit {0})
put_result fail (err e) = err (message "failed to upload attachment")
put_result fail (ok r) = if is_ok r.status then ok tt else err (fail r)

unfoldable pub put_file : (Response → Error) → Presign → File → M (Unit {0})
unfolding fetch
put_file fail p f w = let (r, w') = fetch (put_request p f) w in (put_result fail r, w')

pub put_file-log :
    (fail : Response → Error) (p : Presign) (f : File) (w : World)
    → (put_file fail p f w).1 ≡ log (put_request p f) w
unfolding put_file fetch
put_file-log fail p f w = ground arith

-- The loop `for (let i = 0; i < 5; i++)` with `n` rounds left.
unfoldable pub finalize : ℕ → (Request → M Value) → Request → M (Unit {0})
finalize zero call q w = (err (message "failed to finalize attachment"), w)
finalize (suc n) call q w =
    let (r, w') = call q w in
    elim r [
      | ok v ↦ (ok tt, w')
      | err e ↦ finalize n call q (record w' { slept = w'.slept + 1000 })
    ]

abbrev pub rounds : ℕ
rounds = 5

-- The whole upload, over the client's `apiFetch`.
unfoldable pub upload_with : (Request → M Value) → (Response → Error) → String → File → M (Unit {0})
unfolding read_presign put_file
upload_with call fail ticket_id f = do
  v ← call (presign_request ticket_id f)
  p ← λ w. (read_presign v, w)
  put_file fail p f
  finalize rounds call (finalize_request ticket_id p f)

abbrev pub internal_put_error : Response → Error
internal_put_error r = upload_status r.status

-- `xhr.responseText`, or the status where it is empty.
abbrev pub requester_put_error : Response → Error
requester_put_error r =
    let body = text_or_empty r.text in if body == "" then upload_status r.status else message body

unfoldable pub upload_attachment : String → File → M (Unit {0})
unfolding upload_with api_fetch
upload_attachment = upload_with (api_fetch as_json) internal_put_error

unfoldable pub requester_upload : Option String → String → File → M (Unit {0})
unfolding upload_with requester_fetch
requester_upload token = upload_with (requester_fetch token) requester_put_error
