-- ===== src/Base/Runs.antt =====
-- Runs of a page: a step function over a list of events, and the requests that are in flight.
use mathlib.Core.Path.{◌≡◌, refl}
use mathlib.Core.Bool.{Bool, true, false}
use helpdesk_go.Base.Tests.{if◌then◌else◌}
use mathlib.Core.List.{List, [], ◌∷◌}
use mathlib.Core.Option.{Option, none, some}
use Prim.Native.Nat.{ℕ, zero, suc}

module _ {ℓ κ} {S : Type ℓ} {E : Type κ} (step : S → E → S) where
  abbrev pub runs : S → List E → S
  runs s [] = s
  runs s (e ∷ es) = runs (step s e) es

  -- What every step keeps, every run keeps.
  pub runs-keep {μ} :
      (P : S → Type μ)
      → ((s : S) (e : E) → P s → P (step s e))
      → (s : S) (es : List E) → P s
      → P (runs s es)
  runs-keep P keeps s [] h = h
  runs-keep P keeps s (e ∷ es) h = runs-keep P keeps (step s e) es (keeps s e h)

module _ {ℓ} {A : Type ℓ} where
  -- Of requests with the latest first, the one that was sent first, and the others.
  unfoldable pub oldest : List A → Option A
  oldest [] = none
  oldest (x ∷ []) = some x
  oldest (x ∷ y ∷ xs) = oldest (y ∷ xs)

  unfoldable pub without_oldest : List A → List A
  without_oldest [] = []
  without_oldest (x ∷ []) = []
  without_oldest (x ∷ y ∷ xs) = x ∷ without_oldest (y ∷ xs)

  -- The n-th entry, and the others.
  unfoldable pub nth : ℕ → List A → Option A
  nth n [] = none
  nth zero (x ∷ xs) = some x
  nth (suc n) (x ∷ xs) = nth n xs

  unfoldable pub drop_nth : ℕ → List A → List A
  drop_nth n [] = []
  drop_nth zero (x ∷ xs) = xs
  drop_nth (suc n) (x ∷ xs) = x ∷ drop_nth n xs

-- What both branches keep, each with its test's value, the test keeps.
pub if-keep {ℓ κ} :
    {A : Type ℓ} (P : A → Type κ) (b : Bool) (x y : A)
    → (b ≡ true → P x)
    → (b ≡ false → P y)
    → P (if b then x else y)
if-keep P true x y h k = h refl
if-keep P false x y h k = k refl
