-- ===== src/Http/Laws.antt =====
-- `apiFetch` sends exactly one request, and what it makes of each kind of response.
use mathlib.Core.Path.{ap₂}
use helpdesk_go.Base.{ℕ, ◌≡◌, ◌↔◌, ◌⊎◌, ◌≤◌, ◌≢◌, Option, ◌++◌, String, arith}
use helpdesk_go.Http.{
  Request, Reply, failed, replied, World, Error, network, status_text, unreadable, Result, ok, err,
  Value, undefined, ResponseType, log, fetch, api_fetch, requester_fetch, then_do, after_reply, M,
  bearer, internal_result, text_or_empty, read_body,
}

-- One step of an `async` function, by how it ends.
module _ {A B : Type 0} (k : A → M B) where
  pub then_do-ok :
      (x : Result A × World) (a : A) (w : World) → x.0 ≡ ok a → x.1 ≡ w → then_do x k ≡ k a w
  then_do-ok (ok b, v) a w p q = ap₂ k (ground (arith, p)) q
  then_do-ok (err e, v) a w p q = cc

  pub then_do-err :
      (x : Result A × World) (e : Error) (w : World)
      → x.0 ≡ err e
      → x.1 ≡ w
      → then_do x k ≡ (err e, w)
  then_do-err (ok b, v) e w p q = cc
  then_do-err (err d, v) e w p q = ground arith

module _ (type : ResponseType) (q : Request) (w : World) where
  pub api_fetch-log : (api_fetch type q w).1 ≡ log q w
  unfolding api_fetch fetch
  api_fetch-log = ground arith

pub fetch-log : (q : Request) (w : World) → (fetch q w).1 ≡ log q w
unfolding fetch
fetch-log q w = ground arith

abbrev pub authorized : Option String → Request → Request
authorized token q = record q { headers = q.headers ++ bearer token }

pub requester_fetch-log :
    (token : Option String) (q : Request) (w : World)
    → (requester_fetch token q w).1 ≡ log (authorized token q) w
unfolding requester_fetch fetch
requester_fetch-log token q w = ground arith

abbrev pub IsSuccess : ℕ → Type 0
IsSuccess status = (200 ≤ status) × (status ≤ 299)

-- What `apiFetch` resolves to.
abbrev pub Resolves : ResponseType → Reply → Value → Type 0
Resolves type failed v = ⊥
Resolves type (replied r) v =
    IsSuccess r.status
    × (((r.status ≡ 204) × (v ≡ undefined)) ⊎ ((r.status ≢ 204) × (read_body type r ≡ ok v)))

reply-Resolves :
    (type : ResponseType) (w : World) (v : Value) (reply : Reply)
    → ((then_do (after_reply reply w) (λ r w'. (internal_result type r, w'))).0 ≡ ok v)
      ↔ Resolves type reply v
unfolding internal_result
reply-Resolves type w v failed = (λ h. cc, λ h. absurd h)
reply-Resolves type w v (replied r) = (λ h. ground arith, λ h. ground arith)

-- The internal client's call resolves to a value exactly when the server's response has a status
-- from 200 to 299 and the value is `undefined` for a 204 and the body read as asked for otherwise.
pub api_fetch-Resolves :
    (type : ResponseType) (q : Request) (w : World) (v : Value)
    → ((api_fetch type q w).0 ≡ ok v) ↔ Resolves type (w.server w.sent q) v
unfolding api_fetch fetch
api_fetch-Resolves type q w v = reply-Resolves type (log q w) v (w.server w.sent q)

-- What the server's reply makes the call reject with.
abbrev pub Rejects : Reply → Error → Type 0
Rejects failed e = e ≡ network
Rejects (replied r) e =
    ((¬ IsSuccess r.status) × (e ≡ status_text r.status (text_or_empty r.text)))
    ⊎ (IsSuccess r.status × (r.status ≢ 204) × (e ≡ unreadable))
