-- ===== src/Assets/Bulk/Export.antt =====
-- The export of the assets, `handleExport` of web/internal/src/components/assets/BulkOperations.tsx.
use helpdesk_go.Base.{◌≡◌, ◌≢◌, refl, ◌↔◌, arith, String, ◌<>◌, [], ◌∷◌, none}
use helpdesk_go.Http.{
  get, Request, Reply, failed, replied, World, Error, message, Result, ok, err, Value, undefined,
  blob, value, as_blob, read_body, log,
}
use helpdesk_go.Http.Laws.{IsSuccess, Resolves, api_fetch-Resolves, api_fetch-log}
use helpdesk_go.Api.Generic.{Options, without_data, api_get}

abbrev pub blob_options : Options
blob_options = record { headers = none; response_type = as_blob }

abbrev pub export_request : Request
export_request = without_data get "/assets/export" (("format", "csv") ∷ []) blob_options

-- The file that is downloaded, or the error that is shown.
pub data Export : Type 0 where
  downloaded : String → Export
  export_failed : Error → Export

-- Only a blob has an object URL; for anything else the browser throws.
unfoldable pub export_result : String → Result Value → Export
export_result today (ok blob) = downloaded ("assets-export-" <> (today <> ".csv"))
export_result today (ok undefined) = export_failed (message "Overload resolution failed")
export_result today (ok (value j)) = export_failed (message "Overload resolution failed")
export_result today (err e) = export_failed e

-- `today` is the date of `new Date().toISOString()`.
unfoldable pub handle_export : String → World → Export × World
unfolding api_get export_result
handle_export today w =
    let (r, w') = api_get "/assets/export" (("format", "csv") ∷ []) blob_options w in
    (export_result today r, w')

-- The server answers with a file.
abbrev pub SendsFile : Reply → Type 0
SendsFile failed = ⊥
SendsFile (replied r) = IsSuccess r.status × (r.status ≢ 204) × (read_body as_blob r ≡ ok blob)

abbrev pub Downloads : Export → Type 0
Downloads (downloaded name) = Unit
Downloads (export_failed e) = ⊥

Resolves-blob : (reply : Reply) → Resolves as_blob reply blob ↔ SendsFile reply
Resolves-blob failed = (λ h. h, λ h. h)
Resolves-blob (replied r) = (λ h. ground arith, λ h. ground arith)

export_result-Downloads :
    (today : String) (r : Result Value) → Downloads (export_result today r) ↔ (r ≡ ok blob)
unfolding export_result
export_result-Downloads today (ok blob) = (λ h. refl, λ h. tt)
export_result-Downloads today (ok undefined) = (λ h. absurd h, λ h. cc)
export_result-Downloads today (ok (value j)) = (λ h. absurd h, λ h. cc)
export_result-Downloads today (err e) = (λ h. absurd h, λ h. cc)

-- An export sends one request, and a file is downloaded exactly when the server answers that request
-- with a status from 200 to 299 other than 204 and a body that can be read.
pub handle_export-Downloads :
    (today : String) (w : World)
    → (Downloads (handle_export today w).0 ↔ SendsFile (w.server w.sent export_request))
      × ((handle_export today w).1 ≡ log export_request w)
unfolding handle_export api_get
handle_export-Downloads today w = (
  (
    λ d. (Resolves-blob _).0 (
        (api_fetch-Resolves as_blob export_request w blob).0
          ((export_result-Downloads today _).0 d)),
    λ s.
        (export_result-Downloads today _).1
          ((api_fetch-Resolves as_blob export_request w blob).1 ((Resolves-blob _).1 s)),
  ),
  api_fetch-log as_blob export_request w,
)
