-- ===== src/Debounce/Laws.antt =====
-- What a burst of typing sends, and when the search is said to be running.
use helpdesk_go.Base.{
  runs-keep, ℕ, ◌≡◌, ◌≢◌, refl, ◌⊎◌, inl, inr, arith, Bool, true, false, String, Option, none, some,
  List, [], ◌∷◌, ◌++◌, map,
}
use helpdesk_go.Debounce.{
  Search, Code, Box, ask, nth, types, timer_fires, answered, Event, fire, arrive, step, run,
}

pub append-cons-ne-nil : (xs : List String) (x : String) → xs ++ x ∷ [] ≢ []
append-cons-ne-nil [] x = ground arith
append-cons-ne-nil (y ∷ ys) x = ground arith

absurd_of_both {ℓ} : {A : Type ℓ} {b : Bool} → b ≡ false → b ≡ true → A
absurd_of_both h k = cc

module _ (c : Code) where
  open c use {Answer, fires, done}

  -- However much is typed before the timer fires, only the last text is searched for.
  pub burst-fires :
      (b : Box) (qs : List String) (q : String)
      → run c b (map types qs ++ types q ∷ timer_fires ∷ []) ≡ fire c (some q) b
  unfolding step
  burst-fires b [] q = refl
  burst-fires b (r ∷ rs) q = burst-fires (record b { timer = some r }) rs q

  -- The search is said to be running only while a request is in flight.
  abbrev pub IsHonest : Box → Type 0
  IsHonest b = b.search.fetching ≡ true → b.in_flight ≢ []

  module _
      (asks : (q : String) (s : Search)
        → (fires q s).0.fetching ≡ true
        → (s.fetching ≡ true) ⊎ ((fires q s).1 ≢ none))
      (rests : (a : Option Answer) (s : Search) → (done a s).fetching ≡ false) where
    ask-IsHonest :
        (o : Option String) (b : Box) (s : Search)
        → IsHonest b
        → (s.fetching ≡ true → (b.search.fetching ≡ true) ⊎ (o ≢ none))
        → IsHonest (ask o (record b { search = s; timer = none }))
    ask-IsHonest none b s h k = λ e. elim (k e) [ inl was ↦ h was | inr ne ↦ absurd (ne refl) ]
    ask-IsHonest (some q) b s h k = λ e. append-cons-ne-nil b.in_flight q

    fire-IsHonest : (o : Option String) (b : Box) → IsHonest b → IsHonest (fire c o b)
    fire-IsHonest none b h = h
    fire-IsHonest (some q) b h =
        ask-IsHonest (fires q b.search).1 b (fires q b.search).0 h (asks q b.search)

    arrive-IsHonest :
        (o : Option String) (n : ℕ) (a : Option Answer) (b : Box)
        → IsHonest b
        → IsHonest (arrive c o n a b)
    arrive-IsHonest none n a b h = h
    arrive-IsHonest (some q) n a b h = λ e. absurd_of_both (rests a b.search) e

    step-IsHonest : (b : Box) (e : Event c) → IsHonest b → IsHonest (step c b e)
    unfolding step
    step-IsHonest b (types q) h = h
    step-IsHonest b timer_fires h = fire-IsHonest b.timer b h
    step-IsHonest b (answered n a) h = arrive-IsHonest (nth n b.in_flight) n a b h

    pub run-IsHonest : (b : Box) (es : List (Event c)) → IsHonest b → IsHonest (run c b es)
    run-IsHonest b es h = runs-keep (step c) IsHonest step-IsHonest b es h
