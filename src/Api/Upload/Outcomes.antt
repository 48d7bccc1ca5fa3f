-- ===== src/Api/Upload/Outcomes.antt =====
-- Every way in which `uploadAttachment` can end, with the requests that it has sent.
use helpdesk_go.Base.{
  ℕ, ◌+◌, ◌*◌, ◌≤◌, ◌<◌, ◌≡◌, refl, sym, subst, inl, inr, arith, length, String, Option, zero, suc,
}
use helpdesk_go.Http.{
  Request, Response, File, World, Error, message, Result, ok, err, M, log, Value, as_json,
  api_fetch, requester_fetch,
}
use helpdesk_go.Http.Laws.{api_fetch-log, requester_fetch-log, authorized, then_do-ok, then_do-err}
use helpdesk_go.Api.Upload.{
  Presign, read_presign, presign_request, put_request, finalize_request, put_file, finalize, rounds,
  upload_with, internal_put_error, requester_put_error, upload_attachment, requester_upload,
  put_file-log,
}
use helpdesk_go.Api.Upload.Attempts.{attempts, IsErr, rejected, finalize_cases, Result-cases}

-- How an upload over the call `call` ends. `seen q` is the request that `call q` sends.
module _ (call : Request → M Value) (seen : Request → Request) (fail : Response → Error)
    (id : String) (f : File) (w : World) where
  abbrev presigned : World
  presigned = log (seen (presign_request id f)) w

  abbrev stored : Presign → World
  stored p = log (put_request p f) presigned

  abbrev register : Presign → Request
  register p = seen (finalize_request id p f)

  -- The first two steps went well.
  pub record Stored (p : Presign) : Type 0 where
    pub answer : Value
    pub answered : (call (presign_request id f) w).0 ≡ ok answer
    pub readable : read_presign answer ≡ ok p
    pub put_ok : (put_file fail p f presigned).0 ≡ ok tt

  pub data Outcome : Result (Unit {0}) × World → Type 0 where
    no_presign :
        (e : Error) → (call (presign_request id f) w).0 ≡ err e → Outcome (err e, presigned)
    bad_presign :
        (v : Value) (e : Error)
        → (call (presign_request id f) w).0 ≡ ok v
        → read_presign v ≡ err e
        → Outcome (err e, presigned)
    put_refused :
        (v : Value) (p : Presign) (e : Error)
        → (call (presign_request id f) w).0 ≡ ok v
        → read_presign v ≡ ok p
        → (put_file fail p f presigned).0 ≡ err e
        → Outcome (err e, stored p)
    registered :
        (p : Presign) (failures : ℕ)
        → Stored p
        → failures < 5
        → ((i : ℕ)
            → i < failures
            → IsErr (call (finalize_request id p f) (attempts i (register p) (stored p))).0)
        → (v : Value)
        → (call (finalize_request id p f) (attempts failures (register p) (stored p))).0 ≡ ok v
        → Outcome (ok tt, log (register p) (attempts failures (register p) (stored p)))
    not_registered :
        (p : Presign)
        → Stored p
        → ((i : ℕ)
            → i < 5
            → IsErr (call (finalize_request id p f) (attempts i (register p) (stored p))).0)
        → Outcome
            (err (message "failed to finalize attachment"), attempts 5 (register p) (stored p))

module _ (call : Request → M Value) (seen : Request → Request) (fail : Response → Error)
    (sends : (q : Request) (w : World) → (call q w).1 ≡ log (seen q) w) (id : String) (f : File)
    (w : World) where
  finalize-Outcome :
      (p : Presign)
      → Stored call seen fail id f w p
      → Outcome call seen fail id f w (
          finalize rounds call
            (finalize_request id p f)
            (log (put_request p f) (log (seen (presign_request id f)) w)))
  finalize-Outcome p s = elim (finalize_cases call _ _ (sends (finalize_request id p f)) 5 _) [
    | inl a ↦
        subst (Outcome call seen fail id f w) (sym a.result)
          (registered p a.failures s a.within a.earlier a.answer a.accepted)
    | inr b ↦ subst (Outcome call seen fail id f w) (sym b.result) (not_registered p s b.all)
  ]

  pub upload_with-Outcome : Outcome call seen fail id f w (upload_with call fail id f w)
  unfolding upload_with
  upload_with-Outcome = elim (Result-cases (call (presign_request id f) w).0) [
    | inr (e, h) ↦ subst O (sym (then_do-err _ _ e _ h (sends _ w))) (no_presign e h)
    | inl (v, h) ↦
        subst O (sym (then_do-ok _ _ v _ h (sends _ w))) (elim (Result-cases (read_presign v)) [
          | inr (e, r) ↦ subst O (sym (then_do-err _ _ e _ r refl)) (bad_presign v e h r)
          | inl (p, r) ↦
              subst O (sym (then_do-ok _ _ p _ r refl))
                (elim (Result-cases (put_file fail p f after_presign).0) [
                  | inr (e, u) ↦
                      subst O (sym (then_do-err _ _ e _ u (put_file-log fail p f after_presign)))
                        (put_refused v p e h r u)
                  | inl (t, u) ↦
                      subst O (sym (then_do-ok _ _ t _ u (put_file-log fail p f after_presign))) (
                        finalize-Outcome p
                          (record { answer = v; answered = h; readable = r; put_ok = u }))
                ])
        ])
  ]
    where
      after_presign : World
      after_presign = log (seen (presign_request id f)) w

      O : Result (Unit {0}) × World → Type 0
      O = Outcome call seen fail id f w

abbrev pub InternalOutcome : String → File → World → Result (Unit {0}) × World → Type 0
InternalOutcome = Outcome (api_fetch as_json) (λ q. q) internal_put_error

abbrev pub RequesterOutcome :
    Option String → String → File → World → Result (Unit {0}) × World → Type 0
RequesterOutcome token = Outcome (requester_fetch token) (authorized token) requester_put_error

-- An upload of the internal client ends in one of five ways: no upload URL, an unreadable one, the
-- file refused, the attachment registered after at most four rejected attempts, or five rejected
-- attempts; each with the requests sent, in order, and the time waited.
pub upload_attachment-Outcome :
    (id : String) (f : File) (w : World) → InternalOutcome id f w (upload_attachment id f w)
unfolding upload_attachment
upload_attachment-Outcome id f w =
    upload_with-Outcome (api_fetch as_json) (λ q. q) internal_put_error (api_fetch-log as_json) id f
      w

-- An upload of the requester client ends in one of the same five ways, with its token on every
-- request but that to the store.
pub requester_upload-Outcome :
    (token : Option String) (id : String) (f : File) (w : World)
    → RequesterOutcome token id f w (requester_upload token id f w)
unfolding requester_upload
requester_upload-Outcome token id f w =
    upload_with-Outcome (requester_fetch token) (authorized token) requester_put_error
      (requester_fetch-log token) id f w

not-IsErr-ok {ℓ} : {A : Type ℓ} {r : Result A} {a : A} → IsErr r → r ≡ ok a → ⊥
not-IsErr-ok (rejected e) h = cc

Outcome-accepted :
    (call : Request → M Value) (seen : Request → Request) (fail : Response → Error) (id : String)
    (f : File) (w : World) (p : Presign) (j : ℕ) (v : Value) (x : Result (Unit {0}) × World)
    → Outcome call seen fail id f w x
    → Stored call seen fail id f w p
    → j < 5
    → (call
        (finalize_request id p f)
        (attempts j (register call seen fail id f w p) (stored call seen fail id f w p))).0
      ≡ ok v
    → x.0 ≡ ok tt
Outcome-accepted call seen fail id f w p j v _ (no_presign e h) s lt a = cc (s.answered, h)
Outcome-accepted call seen fail id f w p j v _ (bad_presign u e h r) s lt a =
    cc (s.answered, h, r, s.readable)
Outcome-accepted call seen fail id f w p j v _ (put_refused u q e h r b) s lt a =
    let same : q ≡ p = cc (s.answered, h, r, s.readable) in cc (s.put_ok, b, same)
Outcome-accepted call seen fail id f w p j v _ (registered q n t le earlier u o) s lt a = refl
Outcome-accepted call seen fail id f w p j v _ (not_registered q t all) s lt a =
    let same : p ≡ q = cc (s.answered, t.answered, t.readable, s.readable) in
    absurd (
      not-IsErr-ok (all j lt) (
        subst
          (λ p.
            (call (finalize_request id p f)
              (attempts j (register call seen fail id f w p) (stored call seen fail id f w p))).0
            ≡ ok v)
          same a))

-- If the upload URL is granted, the file is stored there and one of the first five attempts to
-- register it is accepted, then the upload of the internal client succeeds.
pub upload_attachment_succeeds :
    (id : String) (f : File) (w : World) (p : Presign) (j : ℕ) (v : Value)
    → Stored (api_fetch as_json) (λ q. q) internal_put_error id f w p
    → j < 5
    → (api_fetch as_json (finalize_request id p f) (
        attempts j
          (finalize_request id p f)
          (log (put_request p f) (log (presign_request id f) w)))).0
      ≡ ok v
    → (upload_attachment id f w).0 ≡ ok tt
upload_attachment_succeeds id f w p j v s lt a =
    Outcome-accepted _ _ _ id f w p j v _ (upload_attachment-Outcome id f w) s lt a

sent-attempts : (k : ℕ) (q : Request) (w : World) → length (attempts k q w).sent ≡ length w.sent + k
sent-attempts zero q w = omega arith
sent-attempts (suc k) q w = omega (arith, sent-attempts k q _)

slept-attempts : (k : ℕ) (q : Request) (w : World) → (attempts k q w).slept ≡ w.slept + 1000 * k
slept-attempts zero q w = omega arith
slept-attempts (suc k) q w = omega (arith, slept-attempts k q _)

Outcome-bounds :
    (call : Request → M Value) (seen : Request → Request) (fail : Response → Error) (id : String)
    (f : File) (w : World) (x : Result (Unit {0}) × World)
    → Outcome call seen fail id f w x
    → (length x.1.sent ≤ length w.sent + 7) × (x.1.slept ≤ w.slept + 5000)
Outcome-bounds call seen fail id f w _ (no_presign e h) = omega arith
Outcome-bounds call seen fail id f w _ (bad_presign v e h r) = omega arith
Outcome-bounds call seen fail id f w _ (put_refused v p e h r u) = omega arith
Outcome-bounds call seen fail id f w _ (registered p j s lt earlier v ok_v) =
    let q = seen (finalize_request id p f) in
    let v' : World = log (put_request p f) (log (seen (presign_request id f)) w) in
    omega (arith, sent-attempts j q v', slept-attempts j q v')
Outcome-bounds call seen fail id f w _ (not_registered p s all) =
    let q = seen (finalize_request id p f) in
    let v' : World = log (put_request p f) (log (seen (presign_request id f)) w) in
    omega (arith, sent-attempts 5 q v', slept-attempts 5 q v')

-- Whatever the server answers, an upload of the internal client ends after at most seven requests
-- and five seconds of waiting.
pub upload_attachment_bounds :
    (id : String) (f : File) (w : World)
    → (length (upload_attachment id f w).1.sent ≤ length w.sent + 7)
      × ((upload_attachment id f w).1.slept ≤ w.slept + 5000)
upload_attachment_bounds id f w = Outcome-bounds _ _ _ id f w _ (upload_attachment-Outcome id f w)
