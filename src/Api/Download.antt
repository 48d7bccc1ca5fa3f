-- ===== src/Api/Download.antt =====
-- `downloadAttachment` of web/internal/src/shared/api.ts and of web/requester/src/api.ts: the URL that is
-- asked for, and the link that is put into the page, clicked and taken out again.
use helpdesk_go.Base.{◌≡◌, ap, ◌∙◌, String, ◌<>◌, Option, none}
use helpdesk_go.Http.{
  Json, null, obj, Fields, get, send_empty, Request, World, Result, ok, err, message, Value,
  undefined, blob, value, M, ◌>>=◌, as_json, api_fetch, requester_fetch, log,
}
use helpdesk_go.Http.Convert.{text_of}
use helpdesk_go.Http.Laws.{api_fetch-log, then_do-ok}
use helpdesk_go.Api.Upload.{lookup_field}

abbrev pub download_request : String → String → Request
download_request ticket_id att_id =
    send_empty get ("/tickets/" <> (ticket_id <> ("/attachments/" <> (att_id <> "/download-url"))))

-- `const { url } = ...`, and what `a.href = url` makes of it.
unfoldable pub read_href : Value → Result String
unfolding lookup_field text_of
read_href (value (obj fs)) = ok (text_of (lookup_field "url" fs))
read_href (value null) = err (message "Cannot read properties of null")
read_href (value _) = ok (text_of none)
read_href undefined = err (message "Cannot read properties of undefined")
read_href blob = ok (text_of none)

-- It resolves with the `href` of the link that was clicked; one that rejects clicks nothing.
unfoldable pub download_with : (Request → M Value) → String → String → M String
unfolding read_href
download_with call ticket_id att_id =
    call (download_request ticket_id att_id) >>= λ v w. (read_href v, w)

unfoldable pub download_attachment : String → String → M String
unfolding api_fetch download_with
download_attachment = download_with (api_fetch as_json)

unfoldable pub requester_download : Option String → String → String → M String
unfolding requester_fetch download_with
requester_download token = download_with (requester_fetch token)

read_href-text :
    (fs : Fields) (o : Option Json)
    → lookup_field "url" fs ≡ o
    → read_href (value (obj fs)) ≡ ok (text_of o)
unfolding read_href
read_href-text fs o e = ap (λ j. ok (text_of j)) e

-- Where the server answers with an object, one request was sent and the link that is clicked leads to
-- the object's URL as a text: also where it has none, which is the text "undefined".
pub download_attachment-href :
    (ticket_id att_id : String) (fs : Fields) (o : Option Json) (w : World)
    → (api_fetch as_json (download_request ticket_id att_id) w).0 ≡ ok (value (obj fs))
    → lookup_field "url" fs ≡ o
    → download_attachment ticket_id att_id w
      ≡ (ok (text_of o), log (download_request ticket_id att_id) w)
unfolding download_attachment download_with
download_attachment-href ticket_id att_id fs o w answer url =
    then_do-ok (λ v w'. (read_href v, w')) (api_fetch as_json (download_request ticket_id att_id) w)
      (value (obj fs)) (log (download_request ticket_id att_id) w) answer
      (api_fetch-log as_json (download_request ticket_id att_id) w)
    ∙ ap (λ r. (r, log (download_request ticket_id att_id) w)) (read_href-text fs o url)
