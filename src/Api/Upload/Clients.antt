-- ===== src/Api/Upload/Clients.antt =====
-- The uploads of the two clients against each other: `uploadAttachment` of
-- web/internal/src/shared/api.ts and of web/requester/src/api.ts without a token.
use helpdesk_go.Base.{
  ℕ, zero, suc, ◌+◌, ◌≡◌, refl, subst, ◌⊎◌, inl, inr, arith, String, none, List, Bool-cases,
}
use helpdesk_go.Http.{
  File, Json, null, post, Request, Response, Reply, failed, replied, World, Error, Result, ok, err,
  Value, undefined, value, M, ◌>>=◌, then_do, as_json, api_fetch, requester_fetch, fetch, send_json,
  log, internal_result, requester_result, is_ok, after_reply,
}
use helpdesk_go.Api.Upload.{
  Presign, presign_request, finalize_request, read_presign, put_file, put_result, put_request,
  finalize, rounds, upload_with, upload_attachment, requester_upload, internal_put_error,
  requester_put_error,
}

-- Two calls that end alike: in the same world, and both well, with related values, or both badly.
abbrev pub Alike : {A : Type 0} → (A → A → Type 0) → Result A × World → Result A × World → Type 0
Alike R (ok a, v) (ok b, w) = (v ≡ w) × R a b
Alike R (err d, v) (err e, w) = v ≡ w
Alike R (ok a, v) (err e, w) = ⊥
Alike R (err d, v) (ok b, w) = ⊥

-- After a 204 the one client has `undefined` and the other `null`.
abbrev pub SameAnswer : Value → Value → Type 0
SameAnswer u v = (u ≡ v) ⊎ ((u ≡ undefined) × (v ≡ value null))

abbrev pub Done : Unit {0} → Unit {0} → Type 0
Done a b = Unit

bind-Alike :
    {A : Type 0} (R : A → A → Type 0) (x y : Result A × World) (k l : A → M (Unit {0}))
    → Alike R x y
    → ((a b : A) (w : World) → R a b → Alike Done (k a w) (l b w))
    → Alike Done (then_do x k) (then_do y l)
bind-Alike R (ok a, v) (ok b, w) k l h f = subst (λ u. Alike Done (k a v) (l b u)) h.0 (f a b v h.1)
bind-Alike R (err d, v) (err e, w) k l h f = h
bind-Alike R (ok a, v) (err e, w) k l h f = absurd h
bind-Alike R (err d, v) (ok b, w) k l h f = absurd h

response-Alike :
    (r : Response) (w : World)
    → Alike SameAnswer (internal_result as_json r, w) (requester_result r, w)
unfolding internal_result requester_result
response-Alike r w = ground arith

-- A request with a JSON body, through the `apiFetch` of each client.
reply-Alike :
    (reply : Reply) (w : World)
    → Alike SameAnswer
        (then_do (after_reply reply w) (λ r v. (internal_result as_json r, v)))
        (then_do (after_reply reply w) (λ r v. (requester_result r, v)))
reply-Alike failed w = refl
reply-Alike (replied r) w = response-Alike r w

call-Alike :
    (path : String) (body : List (String × Json)) (w : World)
    → Alike SameAnswer
        (api_fetch as_json (send_json post path body) w)
        (requester_fetch none (send_json post path body) w)
unfolding api_fetch requester_fetch fetch
call-Alike path body w =
    reply-Alike (w.server w.sent (send_json post path body)) (log (send_json post path body) w)

read_presign-Alike :
    (u v : Value) (w : World)
    → SameAnswer u v
    → Alike (λ p q. p ≡ q) (read_presign u, w) (read_presign v, w)
unfolding read_presign
read_presign-Alike u v w (inl e) =
    subst (λ x. Alike (λ p q. p ≡ q) (read_presign u, w) (read_presign x, w)) e
      (same (read_presign u))
  where
    same : (r : Result Presign) → Alike (λ p q. p ≡ q) (r, w) (r, w)
    same (ok p) = (refl, refl)
    same (err e') = refl
read_presign-Alike u v w (inr (e, d)) = rw (e, d) refl

put_result-Alike :
    (r : Result Response) (w : World)
    → Alike Done (put_result internal_put_error r, w) (put_result requester_put_error r, w)
put_result-Alike (err e) w = refl
put_result-Alike (ok r) w = elim (Bool-cases (is_ok r.status)) [
  | inl e ↦ rw (e) (refl, tt)
  | inr e ↦ rw (e) refl
]

put_file-Alike :
    (p : Presign) (f : File) (w : World)
    → Alike Done (put_file internal_put_error p f w) (put_file requester_put_error p f w)
unfolding put_file
put_file-Alike p f w = put_result-Alike (fetch (put_request p f) w).0 (fetch (put_request p f) w).1

-- What follows an attempt.
abbrev next : (World → Result (Unit {0}) × World) → Result Value × World → Result (Unit {0}) × World
next again x = elim x.0 [
  | ok v ↦ (ok tt, x.1)
  | err e ↦ again (record x.1 { slept = x.1.slept + 1000 })
]

next-Alike :
    (again more : World → Result (Unit {0}) × World) (x y : Result Value × World)
    → Alike SameAnswer x y
    → ((w : World) → Alike Done (again w) (more w))
    → Alike Done (next again x) (next more y)
next-Alike again more (ok a, v) (ok b, w) h k = (h.0, tt)
next-Alike again more (err d, v) (err e, w) h k =
    subst
      (λ u.
        Alike Done (again (record v { slept = v.slept + 1000 }))
          (more (record u { slept = u.slept + 1000 })))
      h (k (record v { slept = v.slept + 1000 }))
next-Alike again more (ok a, v) (err e, w) h k = absurd h
next-Alike again more (err d, v) (ok b, w) h k = absurd h

module _ (q : Request)
    (same : (w : World) → Alike SameAnswer (api_fetch as_json q w) (requester_fetch none q w)) where
  finalize-Alike :
      (n : ℕ) (w : World)
      → Alike Done (finalize n (api_fetch as_json) q w) (finalize n (requester_fetch none) q w)
  unfolding finalize
  finalize-Alike zero w = refl
  finalize-Alike (suc n) w =
      next-Alike (finalize n (api_fetch as_json) q) (finalize n (requester_fetch none) q)
        (api_fetch as_json q w) (requester_fetch none q w) (same w) (finalize-Alike n)

-- The upload from its later waits on: once the URL is read, and once the answer with it has come.
abbrev store : (Request → M Value) → (Response → Error) → String → File → Presign → M (Unit {0})
store call fail ticket_id f p =
    put_file fail p f >>= λ u. finalize rounds call (finalize_request ticket_id p f)

abbrev proceed : (Request → M Value) → (Response → Error) → String → File → Value → M (Unit {0})
proceed call fail ticket_id f v = (λ w. (read_presign v, w)) >>= store call fail ticket_id f

store-Alike :
    (ticket_id : String) (f : File) (p q : Presign) (w : World)
    → p ≡ q
    → Alike Done
        (store (api_fetch as_json) internal_put_error ticket_id f p w)
        (store (requester_fetch none) requester_put_error ticket_id f q w)
store-Alike ticket_id f p q w e =
    subst
      (λ r.
        Alike Done (store (api_fetch as_json) internal_put_error ticket_id f p w)
          (store (requester_fetch none) requester_put_error ticket_id f r w))
      e
      (bind-Alike Done (put_file internal_put_error p f w) (put_file requester_put_error p f w)
        (λ u. finalize rounds (api_fetch as_json) (finalize_request ticket_id p f))
        (λ u. finalize rounds (requester_fetch none) (finalize_request ticket_id p f))
        (put_file-Alike p f w)
        (λ a b v d.
          finalize-Alike (finalize_request ticket_id p f)
            (λ u. call-Alike (finalize_request ticket_id p f).path _ u) rounds v))

proceed-Alike :
    (ticket_id : String) (f : File) (u v : Value) (w : World)
    → SameAnswer u v
    → Alike Done
        (proceed (api_fetch as_json) internal_put_error ticket_id f u w)
        (proceed (requester_fetch none) requester_put_error ticket_id f v w)
proceed-Alike ticket_id f u v w s =
    bind-Alike (λ p q. p ≡ q) (read_presign u, w) (read_presign v, w)
      (store (api_fetch as_json) internal_put_error ticket_id f)
      (store (requester_fetch none) requester_put_error ticket_id f) (read_presign-Alike u v w s)
      (λ p q w' e. store-Alike ticket_id f p q w' e)

-- Without a token the requester's upload sends, of any file and whatever the server answers, the same
-- requests as the internal client's, waits as long, and succeeds exactly when that one does.
pub uploads-Alike :
    (ticket_id : String) (f : File) (w : World)
    → Alike Done (upload_attachment ticket_id f w) (requester_upload none ticket_id f w)
unfolding upload_attachment requester_upload upload_with
uploads-Alike ticket_id f w =
    bind-Alike SameAnswer (api_fetch as_json (presign_request ticket_id f) w)
      (requester_fetch none (presign_request ticket_id f) w)
      (proceed (api_fetch as_json) internal_put_error ticket_id f)
      (proceed (requester_fetch none) requester_put_error ticket_id f)
      (call-Alike (presign_request ticket_id f).path _ w)
      (λ u v w' s. proceed-Alike ticket_id f u v w' s)
