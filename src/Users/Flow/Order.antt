-- ===== src/Users/Flow/Order.antt =====
-- The administration of users: which search the table shows, by the order of the answers.
use helpdesk_go.Base.{
  zero, suc, ◌≡◌, refl, ap, sym, ◌∙◌, subst, false, String, ◌==◌, Option, none, some, List, [], ◌∷◌,
  ◌++◌, All, All-append, if-keep, nth, drop_nth,
}
use helpdesk_go.Http.{ok, err, Value}
use helpdesk_go.Users.{User, Page, sync_selected, loaded}
use helpdesk_go.Users.Flow.{
  Job, load_users, add_to, take_from, System, start_load, say, select, Event, types, searches,
  selects, chooses, clicks_add, closes_tag, answered, arrive, step, run, start,
}

-- Searches only, each answered well, and the one that was sent first answered first.
abbrev pub IsInOrder : Event → Type 0
IsInOrder (types q) = Unit
IsInOrder searches = Unit
IsInOrder (selects n) = Unit
IsInOrder (chooses role) = Unit
IsInOrder clicks_add = ⊥
IsInOrder (closes_tag role) = ⊥
IsInOrder (answered zero (ok v)) = Unit
IsInOrder (answered zero (err e)) = ⊥
IsInOrder (answered (suc n) r) = ⊥

abbrev pub IsLoad : Job → Type 0
IsLoad (load_users q says) = Unit
IsLoad (add_to u role q) = ⊥
IsLoad (take_from u role q) = ⊥

abbrev pub text_of : Job → String
text_of (load_users q says) = q
text_of (add_to u role q) = q
text_of (take_from u role q) = q

-- The text of the last of the jobs, and `o` where there is none.
abbrev pub newest : List Job → Option String → Option String
newest [] o = o
newest (j ∷ js) o = newest js (some (text_of j))

newest-append :
    (js : List Job) (j : Job) (o : Option String) → newest (js ++ (j ∷ [])) o ≡ some (text_of j)
newest-append [] j o = refl
newest-append (k ∷ js) j o = newest-append js j (some (text_of k))

abbrev pub table_text : Option (String × Value) → Option String
table_text none = none
table_text (some (q, v)) = some q

-- The users of the table are those of the load that it shows.
abbrev pub IsRead : (Value → List User) → Option (String × Value) → List User → Type 0
IsRead read none us = us ≡ []
IsRead read (some (q, v)) us = us ≡ read v

say-users : (o : Option String) (p : Page) → (say o p).users ≡ p.users
say-users none p = refl
say-users (some t) p = refl

say-q : (o : Option String) (p : Page) → (say o p).q ≡ p.q
say-q none p = refl
say-q (some t) p = refl

select-users : (o : Option User) (p : Page) → (select o p).users ≡ p.users
select-users none p = refl
select-users (some u) p = refl

select-q : (o : Option User) (p : Page) → (select o p).q ≡ p.q
select-q none p = refl
select-q (some u) p = refl

module _ (read : Value → List User) where
  pub record Inv (s : System) : Type 0 where
    pub loads : All IsLoad s.in_flight
    pub last : newest s.in_flight (table_text s.table_of) ≡ some s.page.q
    pub from : IsRead read s.table_of s.page.users

  start_load-Inv :
      (q : String) (says : Option String) (s : System)
      → All IsLoad s.in_flight
      → IsRead read s.table_of s.page.users
      → q ≡ s.page.q
      → Inv (start_load q says s)
  start_load-Inv q says s l f e = record {
    loads = All-append IsLoad s.in_flight (load_users q says ∷ []) l (tt, tt);
    last = newest-append s.in_flight (load_users q says) _ ∙ ap some e;
    from = f;
  }

  first-Inv :
      (js : List Job) (v : Value) (s : System)
      → s.in_flight ≡ js
      → Inv s
      → Inv (arrive read (nth 0 js) 0 (ok v) s)
  unfolding nth drop_nth
  first-Inv [] v s h i = i
  first-Inv (load_users q says ∷ js) v s h i = record {
    loads = subst (All IsLoad) (sym (ap (drop_nth 0) h)) (subst (All IsLoad) h i.loads).1;
    last =
        ap (λ k. newest k (some q)) (ap (drop_nth 0) h)
        ∙ sym (ap (λ k. newest k (table_text s.table_of)) h)
        ∙ i.last
        ∙ ap some (sym (say-q says (loaded read (ok v) s.page)));
    from = say-users says (loaded read (ok v) s.page);
  }
  first-Inv (add_to u role q ∷ js) v s h i = absurd (subst (All IsLoad) h i.loads).0
  first-Inv (take_from u role q ∷ js) v s h i = absurd (subst (All IsLoad) h i.loads).0

  pub step-Inv : (s : System) (e : Event) → IsInOrder e → Inv s → Inv (step read s e)
  unfolding step
  step-Inv s (types q) o i =
      if-keep Inv (q == s.page.q) s _ (λ e. i)
        (λ e.
          start_load-Inv q none (record s { page = record s.page { q = q } }) i.loads i.from refl)
  step-Inv s searches o i = start_load-Inv s.page.q none s i.loads i.from refl
  step-Inv s (selects n) o i = record {
    loads = i.loads;
    last = i.last ∙ ap some (sym (select-q (nth n s.page.users) s.page));
    from = subst (IsRead read s.table_of) (sym (select-users (nth n s.page.users) s.page)) i.from;
  }
  step-Inv s (chooses role) o i = record { loads = i.loads; last = i.last; from = i.from }
  step-Inv s clicks_add o i = absurd o
  step-Inv s (closes_tag role) o i = absurd o
  step-Inv s (answered zero (ok v)) o i = first-Inv s.in_flight v s refl i
  step-Inv s (answered zero (err e)) o i = absurd o
  step-Inv s (answered (suc n) r) o i = absurd o

  pub run-Inv : (s : System) (es : List Event) → All IsInOrder es → Inv s → Inv (run read s es)
  run-Inv s [] o i = i
  run-Inv s (e ∷ es) o i = run-Inv (step read s e) es o.1 (step-Inv s e o.0 i)

  pub start-Inv : Inv start
  unfolding start
  start-Inv = record { loads = (tt, tt); last = refl; from = refl }

  -- The table of a page at rest.
  abbrev pub ShowsSearch : System → Type 0
  ShowsSearch s = (v : Value) × (s.table_of ≡ some (s.page.q, v)) × (s.page.users ≡ read v)

  at_rest :
      (o : Option (String × Value)) (q : String) (us : List User)
      → table_text o ≡ some q
      → IsRead read o us
      → (v : Value) × (o ≡ some (q, v)) × (us ≡ read v)
  at_rest none q us h f = absurd (no_text h)
    where
      no_text : none ≡ some q → ⊥
      no_text e = cc
  at_rest (some (p, v)) q us h f = (v, ap (λ t. some (t, v)) (same_text h), f)
    where
      same_text : some p ≡ some q → p ≡ q
      same_text e = cc

  -- At rest the table shows the text that is in the search box.
  pub rest-ShowsSearch : (s : System) → Inv s → s.in_flight ≡ [] → ShowsSearch s
  rest-ShowsSearch s i h =
      at_rest s.table_of s.page.q s.page.users
        (sym (ap (λ k. newest k (table_text s.table_of)) h) ∙ i.last) i.from

-- The page at rest, with the user `u` selected, the role chosen and the text `p`.
abbrev pub ready : User → (role p : String) → Page → List Job → Option (String × Value) → System
ready u role p page sent table = record {
  page = record page { q = p; selected = some u; new_role = role };
  in_flight = [];
  sent = sent;
  table_of = table;
}

-- The role is added while another text is typed; the load of that text is answered, then the change,
-- then the load that follows the change.
abbrev pub overlapping : (q : String) (v1 done v2 : Value) → List Event
overlapping q v1 done v2 =
    clicks_add ∷ types q ∷ answered 1 (ok v1) ∷ answered 0 (ok done) ∷ answered 0 (ok v2) ∷ []

-- From any page at rest, where a role is added, another text is typed, the load of that text is
-- answered, and only then the change, and then the load that follows the change: the page is at rest,
-- the last load asked for the text that was there when the change was sent, and the table shows its
-- answer, while the search box has the other text.
pub old_text_shown :
    (read : Value → List User) (u : User) (role p q : String) (page : Page) (sent : List Job)
    (table : Option (String × Value)) (v1 done v2 : Value)
    → (role == "") ≡ false
    → (q == p) ≡ false
    → ((run read (ready u role p page sent table) (overlapping q v1 done v2)).page.q ≡ q)
      × ((run read (ready u role p page sent table) (overlapping q v1 done v2)).in_flight ≡ [])
      × ((run read (ready u role p page sent table) (overlapping q v1 done v2)).table_of
          ≡ some (p, v2))
      × ((run read (ready u role p page sent table) (overlapping q v1 done v2)).page.users
          ≡ read v2)
unfolding step nth drop_nth sync_selected
old_text_shown read u role p q page sent table v1 done v2 r ne = rw (r, ne) (refl, refl, refl, refl)
