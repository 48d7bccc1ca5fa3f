-- ===== src/Tests/Manager.antt =====
-- The searches as they run, and the texts of the manager's queue.
use helpdesk_go.Base.{◌≡◌, refl, List, [], ◌∷◌, some}
use helpdesk_go.Tickets.Create.{Found, search_fires}
use helpdesk_go.Tickets.Search.{fetch_user}
use helpdesk_go.Debounce.{step, Event, closed_box, types, timer_fires, answered, run}
use helpdesk_go.Manager.{truncate, take_chars}

abbrev ada : Found
ada = record { id = some "r1"; display_name = some "Ada"; email = some "ada@example.com" }

abbrev search_session : List (Event fetch_user)
search_session =
    types "a"
    ∷ types "ad"
    ∷ timer_fires
    ∷ types "b"
    ∷ timer_fires
    ∷ answered 0 (some (ada ∷ []))
    ∷ []

sent_texts : (run fetch_user closed_box search_session).sent ≡ "b" ∷ "ad" ∷ []
unfolding closed_box step search_fires
sent_texts = refl

cut : truncate "Printer on fire" 8 ≡ "Printer…"
unfolding truncate take_chars
cut = refl
