-- ===== src/Users/Flow/Laws.antt =====
-- The administration of users: what the table and the panel show, in which order the answers come.
use helpdesk_go.Base.{
  ℕ, ◌≡◌, refl, ap, sym, ◌∙◌, subst, arith, eq_iff, Bool, true, String, ◌==◌, Option, none, some,
  List, [], ◌∷◌, find, Option-cases, runs-keep, if-keep, nth, drop_nth, inl, inr,
}
use helpdesk_go.Http.{Result, ok, err, Value}
use helpdesk_go.Users.{User, Page, sync_selected, selected_in, loaded, found_or}
use helpdesk_go.Users.Flow.{
  Job, load_users, add_to, take_from, System, send, start_take, start_add, say, select, Event,
  types, searches, selects, chooses, clicks_add, closes_tag, answered, settle, arrive, step, run,
  start,
}

find-some : (test : User → Bool) (us : List User) (s : User) → find test us ≡ some s → test s ≡ true
find-some test [] s h = cc
find-some test (u ∷ us) s h = grind (arith, find-some test us s)

by_id : List User → String → Option User
by_id us id = find (λ s. s.id == id) us

sync_selected-some : (us : List User) (u s : User) → by_id us u.id ≡ some s → sync_selected us u ≡ s
unfolding sync_selected by_id
sync_selected-some us u s e = ap (λ o. found_or o u) e

sync_selected-none : (us : List User) (u : User) → by_id us u.id ≡ none → sync_selected us u ≡ u
unfolding sync_selected by_id
sync_selected-none us u e = ap (λ o. found_or o u) e

by_id-own :
    (us : List User) (id : String) (s : User) → by_id us id ≡ some s → by_id us s.id ≡ some s
unfolding by_id
by_id-own us id s e =
    subst (λ k. by_id us k ≡ some s)
      (ground (arith, eq_iff s.id id, find-some (λ x. x.id == id) us s e)) e

-- The listed user of an ID is the listed user of its own ID.
sync_selected_idem :
    (us : List User) (u : User) → sync_selected us (sync_selected us u) ≡ sync_selected us u
sync_selected_idem us u = elim (Option-cases (by_id us u.id)) [
  | inl e ↦ ap (sync_selected us) (sync_selected-none us u e)
  | inr (s, e) ↦
      ap (sync_selected us) (sync_selected-some us u s e)
      ∙ sync_selected-some us s s (by_id-own us u.id s e)
      ∙ sym (sync_selected-some us u s e)
]

-- The panel shows the selected user as it is listed.
abbrev pub Fresh : Page → Type 0
Fresh p = selected_in p.users p.selected ≡ p.selected

selected_in_idem :
    (us : List User) (o : Option User) → selected_in us (selected_in us o) ≡ selected_in us o
selected_in_idem us none = refl
selected_in_idem us (some u) = ap some (sync_selected_idem us u)

select-Fresh : (o : Option User) (p : Page) → Fresh p → Fresh (select o p)
select-Fresh none p f = f
select-Fresh (some u) p f = ap some (sync_selected_idem p.users u)

say-Fresh : (o : Option String) (p : Page) → Fresh p → Fresh (say o p)
say-Fresh none p f = f
say-Fresh (some t) p f = f

start_add-Fresh : (o : Option User) (s : System) → Fresh s.page → Fresh (start_add o s).page
start_add-Fresh none s f = f
start_add-Fresh (some u) s f =
    if-keep (λ t. Fresh t.page) (s.page.new_role == "") s
      (send (add_to u s.page.new_role s.page.q) s) (λ e. f) (λ e. f)

start_take-Fresh :
    (role : String) (o : Option User) (s : System) → Fresh s.page → Fresh (start_take role o s).page
start_take-Fresh role none s f = f
start_take-Fresh role (some u) s f = f

module _ (read : Value → List User) where
  settle-Fresh :
      (j : Job) (r : Result Value) (s : System) → Fresh s.page → Fresh (settle read j r s).page
  settle-Fresh (load_users q says) (ok v) s f =
      say-Fresh says (loaded read (ok v) s.page) (selected_in_idem (read v) s.page.selected)
  settle-Fresh (load_users q says) (err e) s f = say-Fresh says (loaded read (err e) s.page) f
  settle-Fresh (add_to u role q) (ok v) s f = f
  settle-Fresh (take_from u role q) (ok v) s f = f
  settle-Fresh (add_to u role q) (err e) s f = f
  settle-Fresh (take_from u role q) (err e) s f = f

  arrive-Fresh :
      (o : Option Job) (n : ℕ) (r : Result Value) (s : System)
      → Fresh s.page
      → Fresh (arrive read o n r s).page
  arrive-Fresh none n r s f = f
  arrive-Fresh (some j) n r s f =
      settle-Fresh j r (record s { in_flight = drop_nth n s.in_flight }) f

  step-Fresh : (s : System) (e : Event) → Fresh s.page → Fresh (step read s e).page
  unfolding step
  step-Fresh s (types q) f = if-keep (λ t. Fresh t.page) (q == s.page.q) s _ (λ e. f) (λ e. f)
  step-Fresh s searches f = f
  step-Fresh s (selects n) f = select-Fresh (nth n s.page.users) s.page f
  step-Fresh s (chooses role) f = f
  step-Fresh s clicks_add f = start_add-Fresh s.page.selected s f
  step-Fresh s (closes_tag role) f = start_take-Fresh role s.page.selected s f
  step-Fresh s (answered n r) f = arrive-Fresh (nth n s.in_flight) n r s f

  -- Whatever the user does and in whatever order the server answers: a user whose roles the panel
  -- shows, and who is in the table, is shown as the table has it.
  pub panel-Fresh : (es : List Event) → Fresh (run read start es).page
  unfolding start
  panel-Fresh es = runs-keep (step read) (λ s. Fresh s.page) step-Fresh start es refl
