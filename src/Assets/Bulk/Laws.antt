-- ===== src/Assets/Bulk/Laws.antt =====
-- What a bulk update changes, and when one is sent.
use mathlib.Core.List.{append-nil}
use helpdesk_go.Base.{
  if-keep, runs-keep, ◌≡◌, ◌≢◌, refl, sym, ap, ◌∙◌, true, String, ◌==◌, ◌&&◌, eq_iff, nonempty,
  Option, none, some, truthy, List, [], ◌∷◌, ◌++◌, arith, All, All-append, if◌then◌else◌, ℕ, zero,
  suc,
}
use helpdesk_go.Queries.Params.{param, given, param-given}
use helpdesk_go.Assets.Bulk.{
  Values, updates_of, Submission, no_asset, no_field, update, handle_bulk_update, System, Event,
  submitted, landed, Bulk, update_success, selects, opens, cancels, submits, updated, refused,
  imported, import_failed, step, start, run,
}

-- The four fields that an update may change.
abbrev pub chosen : String → Values → Option String
chosen key v =
    if "status" == key
    then v.status
    else if "condition" == key
    then v.condition
    else if "location" == key
    then v.location
    else if "category_id" == key
    then v.category_id
    else none

abbrev pub if_given : Option String → Option String
if_given o = if truthy o then o else none

param-last :
    (key k : String) (o : Option String)
    → param key (given k o) ≡ (if truthy o && k == key then o else none)
param-last key k o = ap (param key) (sym (append-nil (given k o))) ∙ param-given key k o []

-- The updates that the form makes name a field exactly when a text that is not empty was chosen for
-- it, and then with this text.
pub param-updates_of :
    (key : String) (v : Values) → param key (updates_of v) ≡ if_given (chosen key v)
unfolding updates_of
param-updates_of key v = ground (
  arith,
  eq_iff "status" key,
  eq_iff "condition" key,
  eq_iff "location" key,
  eq_iff "category_id" key,
  eq_iff "status" "condition",
  eq_iff "status" "location",
  eq_iff "status" "category_id",
  eq_iff "condition" "location",
  eq_iff "condition" "category_id",
  eq_iff "location" "category_id",
  param-given key "status" v.status (
      given "condition" v.condition
      ++ (given "location" v.location ++ given "category_id" v.category_id)),
  param-given key "condition" v.condition
      (given "location" v.location ++ given "category_id" v.category_id),
  param-given key "location" v.location (given "category_id" v.category_id),
  param-last key "category_id" v.category_id,
)

-- An update that says something: of one asset or more, with one field or more, and no empty value.
abbrev pub SaysSomething : Submission → Type 0
SaysSomething (update ids us notes) = (ids ≢ []) × (us ≢ []) × All (λ u. nonempty u.1 ≡ true) us
SaysSomething _ = ⊥

given-nonempty : (key : String) (o : Option String) → All (λ u. nonempty u.1 ≡ true) (given key o)
given-nonempty key none = tt
given-nonempty key (some v) = ground (arith, eq_iff v "")

updates_of-nonempty : (v : Values) → All (λ u. nonempty u.1 ≡ true) (updates_of v)
unfolding updates_of
updates_of-nonempty v =
    All-append _ (given "status" v.status) _ (given-nonempty "status" v.status) (
      All-append _ (given "condition" v.condition) _ (given-nonempty "condition" v.condition) (
        All-append _ (given "location" v.location) _ (given-nonempty "location" v.location)
          (given-nonempty "category_id" v.category_id)))

absurd_cons : {A : Type 0} {x : A} {xs : List A} → x ∷ xs ≢ []
absurd_cons e = ground arith

abbrev IsFine : Submission → Type 0
IsFine (update ids us notes) = SaysSomething (update ids us notes)
IsFine _ = Unit

handled-IsFine : (v : Values) (ids : List String) → IsFine (handle_bulk_update v ids)
unfolding handle_bulk_update
handled-IsFine v [] = tt
handled-IsFine v (id ∷ ids) = go (updates_of v) (updates_of-nonempty v)
  where
    go :
        (us : List (String × String))
        → All (λ u. nonempty u.1 ≡ true) us
        → IsFine (elim us [ [] ↦ no_field | u ∷ us ↦ update (id ∷ ids) (u ∷ us) v.notes ])
    go [] h = tt
    go (u ∷ us) h = (λ e. absurd_cons e, λ e. absurd_cons e, h)

submitted-sent :
    (x : Submission) (s : System)
    → IsFine x
    → All SaysSomething s.sent
    → All SaysSomething (submitted x s).sent
submitted-sent no_asset s f h = h
submitted-sent no_field s f h = h
submitted-sent (update ids us notes) s f h = (f, h)

landed-sent : (n : ℕ) (f : Bulk → Bulk) (s : System) → (landed n f s).sent ≡ s.sent
landed-sent zero f s = refl
landed-sent (suc n) f s = refl

step-sent : (s : System) (e : Event) → All SaysSomething s.sent → All SaysSomething (step s e).sent
unfolding step
step-sent s (submits v) h =
    if-keep (λ q. All SaysSomething q.sent) s.page.modal_visible
      (submitted (handle_bulk_update v s.page.selected_assets) s) s
      (λ _. submitted-sent _ s (handled-IsFine v s.page.selected_assets) h) (λ _. h)
step-sent s updated h = rw (landed-sent s.in_flight update_success s) h
step-sent s refused h = rw (landed-sent s.in_flight (λ b. b) s) h
step-sent s (selects ids) h = h
step-sent s opens h = h
step-sent s cancels h = h
step-sent s (imported p) h = h
step-sent s import_failed h = h

-- Whatever the user does and however the server answers, every bulk update that is sent names one
-- asset or more and changes one field or more, to a text that is not empty.
pub bulk_updates-SaysSomething : (es : List Event) → All SaysSomething (run start es).sent
unfolding start
bulk_updates-SaysSomething es = runs-keep step (λ s. All SaysSomething s.sent) step-sent start es tt
