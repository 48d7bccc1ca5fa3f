-- ===== src/Api.antt =====
-- The endpoints that the two web clients call: web/internal/src/shared/api.ts and
-- web/requester/src/api.ts.
pub mod Internal
pub mod Requester
pub mod Upload
pub mod Generic
pub mod Download
