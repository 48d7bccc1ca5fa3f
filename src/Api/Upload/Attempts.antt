-- ===== src/Api/Upload/Attempts.antt =====
-- How often the finalize loop of `uploadAttachment` tries, and what it leaves behind.
use helpdesk_go.Base.{ℕ, zero, suc, ◌+◌, ◌<◌, ◌≡◌, refl, sym, subst, ◌∙◌, ◌⊎◌, inl, inr, arith, ◌∷◌}
use helpdesk_go.Http.{Request, World, Error, message, Result, ok, err, M, log, Value}
use helpdesk_go.Api.Upload.{finalize}

-- The world after `k` attempts that failed: each leaves a request and a wait of one second.
abbrev pub attempts : ℕ → Request → World → World
attempts zero q w = w
attempts (suc k) q w = attempts k q (record w { sent = q ∷ w.sent; slept = w.slept + 1000 })

pub Result-cases {ℓ} :
    {A : Type ℓ} (r : Result A) → ((a : A) × (r ≡ ok a)) ⊎ ((e : Error) × (r ≡ err e))
Result-cases (ok a) = inl (a, refl)
Result-cases (err e) = inr (e, refl)

pub data IsErr {ℓ} {A : Type ℓ} : Result A → Type ℓ where
  rejected : (e : Error) → IsErr (err e)

-- The loop succeeds at the first accepted attempt, the one after `j` rejected ones.
pub record Accepted (call : Request → M Value) (q seen : Request) (w : World) (n : ℕ) : Type 0 where
  pub failures : ℕ
  pub within : failures < n
  pub earlier : (i : ℕ) → i < failures → IsErr (call q (attempts i seen w)).0
  pub answer : Value
  pub accepted : (call q (attempts failures seen w)).0 ≡ ok answer
  pub result : finalize n call q w ≡ (ok tt, log seen (attempts failures seen w))

-- All `n` attempts are rejected.
pub record Rejected (call : Request → M Value) (q seen : Request) (w : World) (n : ℕ) : Type 0 where
  pub all : (i : ℕ) → i < n → IsErr (call q (attempts i seen w)).0
  pub result :
      finalize n call q w ≡ (err (message "failed to finalize attachment"), attempts n seen w)

-- Whatever `call` answers, it sends one request.
module _ (call : Request → M Value) (q seen : Request)
    (sends : (w : World) → (call q w).1 ≡ log seen w) where
  finalize_ok :
      (n : ℕ) (w : World) (v : Value)
      → (call q w).0 ≡ ok v
      → finalize (suc n) call q w ≡ (ok tt, log seen w)
  unfolding finalize
  finalize_ok n w v h = rw (h, finalize) (rw (sends w))

  finalize_err :
      (n : ℕ) (w : World) (e : Error)
      → (call q w).0 ≡ err e
      → finalize (suc n) call q w ≡ finalize n call q (attempts 1 seen w)
  unfolding finalize
  finalize_err n w e h = rw (h, finalize) (rw (sends w))

  later :
      (n : ℕ) (w : World) (e : Error)
      → (call q w).0 ≡ err e
      → (Accepted call q seen (attempts 1 seen w) n ⊎ Rejected call q seen (attempts 1 seen w) n)
      → Accepted call q seen w (suc n) ⊎ Rejected call q seen w (suc n)
  later n w e h (inl a) = inl (record {
    failures = suc a.failures;
    within = omega (arith, a.within);
    earlier = λ i. elim i as (λ i. i < suc a.failures → IsErr (call q (attempts i seen w)).0) [
      | zero ↦ λ _. subst IsErr (sym h) (rejected e)
      | suc i ↦ λ b. a.earlier i (omega arith)
    ];
    answer = a.answer;
    accepted = a.accepted;
    result = finalize_err n w e h ∙ a.result;
  })
  later n w e h (inr b) = inr (record {
    all = λ i. elim i as (λ i. i < suc n → IsErr (call q (attempts i seen w)).0) [
      | zero ↦ λ _. subst IsErr (sym h) (rejected e)
      | suc i ↦ λ c. b.all i (omega arith)
    ];
    result = finalize_err n w e h ∙ b.result;
  })

  -- The loop ends one way or the other.
  pub finalize_cases : (n : ℕ) (w : World) → Accepted call q seen w n ⊎ Rejected call q seen w n
  unfolding finalize
  finalize_cases zero w = inr (record { all = λ i b. elim b [ ]; result = refl })
  finalize_cases (suc n) w = elim (Result-cases (call q w).0) [
    | inl (v, h) ↦ inl (record {
      failures = 0;
      within = omega arith;
      earlier = λ i b. elim b [ ];
      answer = v;
      accepted = h;
      result = finalize_ok n w v h;
    })
    | inr (e, h) ↦ later n w e h (finalize_cases n (attempts 1 seen w))
  ]
