-- ===== src/Tickets/Search.antt =====
-- The search of requesters in the agent's "New Ticket" modal, as it runs.
use helpdesk_go.Base.{
  ◌≡◌, ◌≢◌, ◌⊎◌, arith, eq_iff, true, false, String, ◌==◌, Option, none, some, List, [], ◌∷◌, ◌++◌,
  map, if◌then◌else◌,
}
use helpdesk_go.Tickets.Create.{Found, found_options, search_fires, search_done}
use helpdesk_go.Debounce.{
  Search, Code, Box, closed_box, types, timer_fires, answered, Event, step, run,
}
use helpdesk_go.Debounce.Laws.{burst-fires, IsHonest, run-IsHonest}

abbrev pub fetch_user : Code
fetch_user = record { Answer = List Found; fires = search_fires; done = search_done }

-- A burst of typing sends the last text, and nothing if it is empty.
pub burst-sent :
    (b : Box) (qs : List String) (q : String)
    → (run fetch_user b (map types qs ++ types q ∷ timer_fires ∷ [])).sent
      ≡ (if q == "" then b.sent else q ∷ b.sent)
unfolding search_fires
burst-sent b qs q = rw (burst-fires fetch_user b qs q) (ground arith)

-- The answer to an older search that comes last is shown, though a later text has been answered.
pub stale_answer_shown :
    (b : Box) (q r : String) (f g : List Found)
    → q ≢ ""
    → r ≢ ""
    → b.in_flight ≡ []
    → (run fetch_user b (
        types q
        ∷ timer_fires
        ∷ types r
        ∷ timer_fires
        ∷ answered 1 (some g)
        ∷ answered 0 (some f)
        ∷ [])).search.options
      ≡ found_options f
unfolding step search_fires search_done
stale_answer_shown b q r f g hq hr e = ground (arith, eq_iff q "", eq_iff r "")

search_fires-asks :
    (q : String) (s : Search)
    → (search_fires q s).0.fetching ≡ true
    → (s.fetching ≡ true) ⊎ ((search_fires q s).1 ≢ none)
unfolding search_fires
search_fires-asks q s h = ground arith

search_done-rests : (a : Option (List Found)) (s : Search) → (search_done a s).fetching ≡ false
unfolding search_done
search_done-rests a s = ground arith

-- Whatever is typed and however the answers come, the search of requesters is said to be running
-- only while a request is in flight.
pub fetch_user-IsHonest :
    (es : List (Event fetch_user)) → IsHonest fetch_user (run fetch_user closed_box es)
unfolding closed_box
fetch_user-IsHonest es =
    run-IsHonest fetch_user search_fires-asks search_done-rests closed_box es (λ e. cc)
