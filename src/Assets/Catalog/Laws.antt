-- ===== src/Assets/Catalog/Laws.antt =====
-- What the page of categories sends, and what its dialog edits.
use helpdesk_go.Base.{
  if-keep, oldest, ◌≡◌, refl, ap, sym, subst, Bool, true, false, Option, none, some, List, [], ◌∷◌,
  arith, All, ℕ, Bool-cases, inl, inr,
}
use helpdesk_go.Http.{World, value, arr, Items, ok, get, as_json}
use helpdesk_go.Http.Laws.{api_fetch-log, then_do-ok}
use helpdesk_go.Api.Generic.{without_data, no_options, api_get}
use helpdesk_go.Assets.Catalog.{
  Category, FormData, Page, Job, create, update, remove, has_assets, list_categories, read_data,
  handle_delete, System, Event, opens, closes, submits, deletes, answered, settle, send, save_job,
  step, start, run, handle_open_modal, handle_close_modal,
}

-- A list of categories that the server sends as an array never arrives: the page reads a property of
-- the array that it does not have.
pub categories_lost :
    (w : World) (categories : Items)
    → (api_get "/asset-categories" [] no_options w).0 ≡ ok (value (arr categories))
    → (list_categories w).0 ≡ ok none
unfolding list_categories api_get read_data
categories_lost w categories h =
    ap (λ x. x.0)
      (then_do-ok (λ v w'. (read_data v, w')) _ (value (arr categories)) _ h
        (api_fetch-log as_json (without_data get "/asset-categories" [] no_options) w))

-- What the user does to a category: opening the dialog for it, and confirming its deletion.
abbrev pub TakesOnly : (P Q : Category → Type 0) → Event → Type 0
TakesOnly P Q (opens (some c)) = P c
TakesOnly P Q (deletes c) = Q c
TakesOnly P Q _ = Unit

-- A change of a category that the user opened; a deletion of one whose deletion the user confirmed, and
-- which was not listed with a number of assets above 0.
abbrev pub IsAllowed : (P Q : Category → Type 0) → Job → Type 0
IsAllowed P Q (create f) = Unit
IsAllowed P Q (update c f) = P c
IsAllowed P Q (remove c) = Q c × ((n : ℕ) → c.asset_count ≡ some n → n ≡ 0)

abbrev pub IsOpened : (Category → Type 0) → Option Category → Type 0
IsOpened P none = Unit
IsOpened P (some c) = P c

pub record Inv (P Q : Category → Type 0) (s : System) : Type 0 where
  pub closed : s.page.modal_visible ≡ false → s.page.editing ≡ none
  pub edits : IsOpened P s.page.editing
  pub allowed : All (IsAllowed P Q) s.sent

not_above : (o : Option ℕ) (n : ℕ) → has_assets o ≡ false → o ≡ some n → n ≡ 0
not_above o n h e = ground arith

send-page : (js : List Job) (s : System) → (send js s).page ≡ s.page
send-page [] s = refl
send-page (j ∷ js) s = refl

-- The dialog edits nothing while it is closed.
abbrev IsQuiet : Page → Type 0
IsQuiet p = p.modal_visible ≡ false → p.editing ≡ none

settle-IsQuiet : (j : Option Job) (good : Bool) (p : Page) → IsQuiet p → IsQuiet (settle j good p)
unfolding handle_close_modal
settle-IsQuiet (some (create f)) true p h = λ e. refl
settle-IsQuiet (some (update c f)) true p h = λ e. refl
settle-IsQuiet (some (remove c)) true p h = h
settle-IsQuiet (some j) false p h = h
settle-IsQuiet none good p h = h

module _ (P Q : Category → Type 0) where
  handled-IsAllowed : (c : Category) → Q c → All (IsAllowed P Q) (handle_delete c)
  unfolding handle_delete
  handled-IsAllowed c q = elim (Bool-cases (has_assets c.asset_count)) [
    | inl e ↦ rw e tt
    | inr e ↦ rw e ((q, λ n. not_above c.asset_count n e), tt)
  ]

  sent-more :
      (js : List Job) (s : System)
      → All (IsAllowed P Q) js
      → All (IsAllowed P Q) s.sent
      → All (IsAllowed P Q) (send js s).sent
  sent-more [] s a h = h
  sent-more (j ∷ []) s a h = (a.0, h)
  sent-more (j ∷ k ∷ js) s a h = (a.0, h)

  save_job-IsAllowed :
      (c : Option Category) (f : FormData) → IsOpened P c → IsAllowed P Q (save_job c f)
  save_job-IsAllowed none f o = tt
  save_job-IsAllowed (some c) f o = o

  opens-IsOpened : (c : Option Category) → TakesOnly P Q (opens c) → IsOpened P c
  opens-IsOpened none t = tt
  opens-IsOpened (some c) t = t

  settle-IsOpened :
      (j : Option Job) (good : Bool) (p : Page)
      → IsOpened P p.editing
      → IsOpened P (settle j good p).editing
  unfolding handle_close_modal
  settle-IsOpened (some (create f)) true p h = tt
  settle-IsOpened (some (update c f)) true p h = tt
  settle-IsOpened (some (remove c)) true p h = h
  settle-IsOpened (some j) false p h = h
  settle-IsOpened none good p h = h

  step-Inv : (s : System) (e : Event) → TakesOnly P Q e → Inv P Q s → Inv P Q (step s e)
  unfolding step handle_open_modal handle_close_modal
  step-Inv s (opens c) t v = record {
    closed = λ e. ground arith;
    edits = opens-IsOpened c t;
    allowed = v.allowed;
  }
  step-Inv s closes t v = record { closed = λ e. refl; edits = tt; allowed = v.allowed }
  step-Inv s (submits f) t v =
      if-keep (Inv P Q) s.page.modal_visible (send (save_job s.page.editing f ∷ []) s) s
        (λ _. record {
          closed = v.closed;
          edits = v.edits;
          allowed = (save_job-IsAllowed s.page.editing f v.edits, v.allowed);
        })
        (λ _. v)
  step-Inv s (deletes c) t v = record {
    closed = subst IsQuiet (sym (send-page (handle_delete c) s)) v.closed;
    edits = subst (λ p. IsOpened P p.editing) (sym (send-page (handle_delete c) s)) v.edits;
    allowed = sent-more (handle_delete c) s (handled-IsAllowed c t) v.allowed;
  }
  step-Inv s (answered good) t v = record {
    closed = settle-IsQuiet (oldest s.pending) good s.page v.closed;
    edits = settle-IsOpened (oldest s.pending) good s.page v.edits;
    allowed = v.allowed;
  }

  run-Inv : (s : System) (es : List Event) → All (TakesOnly P Q) es → Inv P Q s → Inv P Q (run s es)
  run-Inv s [] t v = v
  run-Inv s (e ∷ es) t v = run-Inv (step s e) es t.1 (step-Inv s e t.0 v)

start-Inv : (P Q : Category → Type 0) → Inv P Q start
unfolding start
start-Inv P Q = record { closed = λ e. refl; edits = tt; allowed = tt }

-- Whatever the user does and however the server answers: the dialog of the categories edits no
-- category while it is closed; what it edits, and what a change is sent for, has every property that all
-- the categories have for which the user opened it; and a deletion is sent only for a category that
-- has every property that all those have whose deletion the user confirmed, and for none that was
-- listed with a number of assets above 0. One that was listed without that number may be deleted.
pub catalog-Inv :
    (P Q : Category → Type 0) (es : List Event) → All (TakesOnly P Q) es → Inv P Q (run start es)
catalog-Inv P Q es t = run-Inv P Q start es t (start-Inv P Q)

-- A save of the dialog, of a new category or of one that is edited.
abbrev pub IsSave : Option Job → Type 0
IsSave (some (create f)) = Unit
IsSave (some (update c f)) = Unit
IsSave _ = ⊥

abbrev pub IsClosed : Page → Type 0
IsClosed p = (p.modal_visible ≡ false) × (p.editing ≡ none)

settle-IsClosed : (j : Option Job) (p : Page) → IsSave j → IsClosed (settle j true p)
unfolding handle_close_modal
settle-IsClosed (some (create f)) p h = (refl, refl)
settle-IsClosed (some (update c f)) p h = (refl, refl)
settle-IsClosed (some (remove c)) p h = absurd h
settle-IsClosed none p h = absurd h

-- At any time, while the oldest request without an answer is a save: its success closes the dialog,
-- whatever the dialog has in it by then, and sends nothing; so it is where the user first leaves the
-- dialog of that save, and opens that of any category or of a new one.
pub late_answer_closes :
    (s : System) (d : Option Category)
    → IsSave (oldest s.pending)
    → IsClosed (step s (answered true)).page
      × ((step s (answered true)).sent ≡ s.sent)
      × IsClosed (run s (closes ∷ opens d ∷ answered true ∷ [])).page
      × ((run s (closes ∷ opens d ∷ answered true ∷ [])).sent ≡ s.sent)
unfolding step
late_answer_closes s d h = (
  settle-IsClosed (oldest s.pending) s.page h,
  refl,
  settle-IsClosed (oldest s.pending) _ h,
  refl,
)
