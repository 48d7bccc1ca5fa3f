-- ===== src/Users/Flow/Settles.antt =====
-- The administration of users comes to rest: with an answer to each search that is in flight, the table
-- shows what the search box asks for.
use helpdesk_go.Base.{
  ℕ, suc, ◌≡◌, refl, ap, sym, ◌∙◌, arith, List, [], ◌∷◌, All, length, map, nth, drop_nth,
}
use helpdesk_go.Http.{ok, Value}
use helpdesk_go.Users.{User}
use helpdesk_go.Users.Flow.{
  Job, load_users, add_to, take_from, System, Event, answered, arrive, step, run, start,
}
use helpdesk_go.Users.Flow.Order.{
  IsInOrder, IsLoad, Inv, step-Inv, run-Inv, start-Inv, ShowsSearch, rest-ShowsSearch,
}

-- An answer to each of the searches, the earliest first.
abbrev pub answers : List Value → List Event
answers = map (λ v. answered 0 (ok v))

empty_of : (js : List Job) → 0 ≡ length js → js ≡ []
empty_of [] h = refl
empty_of (j ∷ js) h = ground (arith, h)

module _ (read : Value → List User) where
  arrive-length :
      (js : List Job) (v : Value) (s : System) (n : ℕ)
      → s.in_flight ≡ js
      → All IsLoad js
      → suc n ≡ length js
      → n ≡ length (arrive read (nth 0 js) 0 (ok v) s).in_flight
  unfolding nth drop_nth
  arrive-length [] v s n h l e = omega (arith, e)
  arrive-length (load_users q says ∷ js) v s n h l e =
      omega (arith, e) ∙ sym (ap (λ k. length (drop_nth 0 k)) h)
  arrive-length (add_to u role q ∷ js) v s n h l e = absurd l.0
  arrive-length (take_from u role q ∷ js) v s n h l e = absurd l.0

  drains :
      (vs : List Value) (s : System)
      → Inv read s
      → length vs ≡ length s.in_flight
      → (run read s (answers vs)).in_flight ≡ []
  unfolding step
  drains [] s i h = empty_of s.in_flight h
  drains (v ∷ vs) s i h =
      drains vs (step read s (answered 0 (ok v))) (step-Inv read s (answered 0 (ok v)) tt i)
        (arrive-length s.in_flight v s (length vs) refl i.loads h)

  answers-IsInOrder : (vs : List Value) → All IsInOrder (answers vs)
  answers-IsInOrder [] = tt
  answers-IsInOrder (v ∷ vs) = (tt, answers-IsInOrder vs)

  -- Whatever the user has searched for, selected and chosen, while every search so far was answered
  -- well or not yet, in the order in which they were sent: answers to those that are in flight, in
  -- that order, bring the page to rest, and the table then shows the users of an answer to the text
  -- that is in the search box.
  pub searches_settle :
      (es : List Event) (vs : List Value)
      → All IsInOrder es
      → length vs ≡ length (run read start es).in_flight
      → ((run read (run read start es) (answers vs)).in_flight ≡ [])
        × ShowsSearch read (run read (run read start es) (answers vs))
  searches_settle es vs o h =
      let i = run-Inv read start es o (start-Inv read) in
      let rest = drains vs (run read start es) i h in
      (
        rest,
        rest-ShowsSearch read (run read (run read start es) (answers vs))
            (run-Inv read (run read start es) (answers vs) (answers-IsInOrder vs) i) rest,
      )
