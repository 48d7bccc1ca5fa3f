-- ===== src/Tests/Api.antt =====
-- The HTTP layer and an upload against concrete servers.
use helpdesk_go.Base.{none}
use helpdesk_go.Api.Upload.Clients.{Alike, Done, uploads-Alike}
use helpdesk_go.Base.{ℕ, ◌≡◌, ◌≤◌, refl, arith, List, [], some, length, ◌↔◌, eqb, if◌then◌else◌}
use helpdesk_go.Http.{
  Request, Reply, failed, replied, World, Json, obj, str, field, done, File, ok, value, as_json,
  api_fetch, send_empty, get,
}
use helpdesk_go.Http.Laws.{Resolves, api_fetch-Resolves}
use helpdesk_go.Api.Upload.{
  Presign, read_presign, finalize, upload_attachment, requester_upload, put_file,
  internal_put_error,
}
use helpdesk_go.Api.Upload.Outcomes.{
  InternalOutcome, RequesterOutcome, Stored, upload_attachment-Outcome, requester_upload-Outcome,
  upload_attachment_bounds, upload_attachment_succeeds,
}

abbrev photo : File
photo = record { name = "photo.png"; size = 2048; mime = "image/png" }

abbrev answer_with : ℕ → Json → Reply
answer_with status j = replied (record { status = status; text = some "body"; parsed = some j })

abbrev grant : Json
grant = obj (field "upload_url" (str "https://store/a1") (field "attachment_id" (str "a1") done))

-- The URL is granted, the file is stored, and the second attempt to register it is accepted.
abbrev server : List Request → Request → Reply
server sent q =
    if eqb (length sent) 0
    then answer_with 200 grant
    else if eqb (length sent) 1
    then answer_with 200 grant
    else if eqb (length sent) 2
    then answer_with 404 grant
    else answer_with 201 grant

abbrev world : World
world = record { server = server; sent = []; slept = 0 }

second_attempt :
    ((upload_attachment "t1" photo world).0 ≡ ok tt)
    × (length (upload_attachment "t1" photo world).1.sent ≡ 4)
    × ((upload_attachment "t1" photo world).1.slept ≡ 1000)
unfolding upload_attachment finalize
second_attempt = (refl, refl, refl)

upload_attachment-Outcome_example :
    InternalOutcome "t1" photo world (upload_attachment "t1" photo world)
upload_attachment-Outcome_example = upload_attachment-Outcome "t1" photo world

requester_upload-Outcome_example :
    RequesterOutcome
      (some "token")
      "t1"
      photo
      world
      (requester_upload (some "token") "t1" photo world)
requester_upload-Outcome_example = requester_upload-Outcome (some "token") "t1" photo world

upload_attachment_bounds_example :
    (length (upload_attachment "t1" photo world).1.sent ≤ 7)
    × ((upload_attachment "t1" photo world).1.slept ≤ 5000)
upload_attachment_bounds_example = upload_attachment_bounds "t1" photo world

abbrev granted : Presign
granted = record { upload_url = "https://store/a1"; headers = []; attachment_id = some (str "a1") }

granted-Stored : Stored (api_fetch as_json) (λ q. q) internal_put_error "t1" photo world granted
unfolding api_fetch read_presign put_file
granted-Stored = record { answer = value grant; answered = refl; readable = refl; put_ok = refl }

upload_attachment_succeeds_example : (upload_attachment "t1" photo world).0 ≡ ok tt
unfolding api_fetch
upload_attachment_succeeds_example =
    upload_attachment_succeeds "t1" photo world granted 1 (value grant) granted-Stored (omega arith)
      refl

api_fetch-Resolves_example :
    ((api_fetch as_json (send_empty get "/me") world).0 ≡ ok (value grant))
    ↔ Resolves as_json (server [] (send_empty get "/me")) (value grant)
api_fetch-Resolves_example = api_fetch-Resolves as_json (send_empty get "/me") world (value grant)

abbrev offline : World
offline = record { server = λ sent q. failed; sent = []; slept = 0 }

uploads-Alike_example :
    Alike Done (upload_attachment "t1" photo world) (requester_upload none "t1" photo world)
uploads-Alike_example = uploads-Alike "t1" photo world
