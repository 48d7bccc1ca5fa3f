-- ===== src/Tickets/Detail/Laws.antt =====
-- The agent's page of one ticket: uploads wait for the server's consent, and links are those of the
-- stored attachments.
use helpdesk_go.Base.{◌≡◌, refl, ap, ◌↔◌, true, String, none, some, List, [], ◌∷◌, map}
use helpdesk_go.Http.{
  null, bool, num, str, arr, obj, Result, ok, err, World, Value, value, undefined, blob, get,
  send_empty, as_json, api_fetch, or_catch, pure,
}
use helpdesk_go.Http.Convert.{is_truthy, text_of}
use helpdesk_go.Api.Upload.{lookup_field}
use helpdesk_go.Tickets.Attachments.{Pending}
use helpdesk_go.Tickets.Detail.{
  load_features, can_upload, no_storage, Row, Stored, attachment_rows, pending_row, stored_row,
}

-- The server's answer to the query of its features.
abbrev pub features_answer : World → Result Value
features_answer w = (api_fetch as_json (send_empty get "/features") w).0

-- The answer is an object whose `attachments` a condition takes for true.
abbrev pub Grants : Result Value → Type 0
Grants (ok (value (obj fs))) = is_truthy (lookup_field "attachments" fs) ≡ true
Grants _ = ⊥

-- What the page makes of the answer.
abbrev pub Follows : Result Value → Result Value → Type 0
Follows answer (ok v) = (can_upload (some v) ≡ true) ↔ Grants answer
Follows answer (err e) = ⊥

caught-Follows :
    (answer : Result Value) (w : World)
    → Follows answer (or_catch (answer, w) (λ e. pure no_storage)).0
unfolding can_upload lookup_field
caught-Follows (ok (value (obj fs))) w = (λ h. h, λ h. h)
caught-Follows (ok (value null)) w = (λ h. cc, λ h. absurd h)
caught-Follows (ok (value (bool b))) w = (λ h. cc, λ h. absurd h)
caught-Follows (ok (value (num n))) w = (λ h. cc, λ h. absurd h)
caught-Follows (ok (value (str s))) w = (λ h. cc, λ h. absurd h)
caught-Follows (ok (value (arr xs))) w = (λ h. cc, λ h. absurd h)
caught-Follows (ok undefined) w = (λ h. cc, λ h. absurd h)
caught-Follows (ok blob) w = (λ h. cc, λ h. absurd h)
caught-Follows (err e) w = (λ h. cc, λ h. absurd h)

-- The query of the features never fails, and the page then lets an agent upload exactly when the
-- server has answered that it stores attachments.
pub load_features-Follows : (w : World) → Follows (features_answer w) (load_features w).0
unfolding load_features
load_features-Follows w =
    caught-Follows (features_answer w) (api_fetch as_json (send_empty get "/features") w).1

-- The IDs that the rows' links use.
abbrev pub links : List Row → List String
links [] = []
links (r ∷ rs) = elim r.link [ none ↦ links rs | some id ↦ id ∷ links rs ]

links-stored : (xs : List Stored) → links (map stored_row xs) ≡ map (λ a. text_of (some a.id)) xs
unfolding stored_row
links-stored [] = refl
links-stored (a ∷ xs) = ap (λ rest. text_of (some a.id) ∷ rest) (links-stored xs)

-- While uploads are running, the list offers "Download" and "Delete" for exactly the attachments that
-- the server has stored, in its order, and for none that is still being uploaded; before the stored
-- ones have been loaded it offers them for none.
pub attachment_rows-links :
    (pending : List Pending) (xs : List Stored)
    → (links (attachment_rows pending (some xs)) ≡ map (λ a. text_of (some a.id)) xs)
      × (links (attachment_rows pending none) ≡ [])
unfolding attachment_rows pending_row
attachment_rows-links [] xs = (links-stored xs, refl)
attachment_rows-links (a ∷ pending) xs = attachment_rows-links pending xs
