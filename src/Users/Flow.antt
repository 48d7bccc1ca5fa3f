-- ===== src/Users/Flow.antt =====
-- The administration of users, web/internal/src/components/admin/AdminUsers.tsx, with its requests in
-- flight: what is loaded, and when, where several loads and changes of roles are under way at once. The
-- form for a new user stands in Users/Create.
pub mod Laws
pub mod Order
pub mod Settles
use helpdesk_go.Base.{
  runs, nth, drop_nth, ℕ, Bool, true, false, not, ◌||◌, String, ◌==◌, Option, none, some, List, [],
  ◌∷◌, ◌++◌, if◌then◌else◌,
}
use helpdesk_go.Http.{Request, Error, Result, ok, err, Value}
use helpdesk_go.Users.{
  User, Page, Notice, success, thrown, load_request, add_request, remove_request, loaded,
  sync_selected, selected_in,
}

-- A request in flight. A load has its text, and what is said after it; a change of roles has the text of
-- the render whose handler sent it, for the load that follows.
pub data Job : Type 0 where
  load_users : (q : String) → (says : Option String) → Job
  add_to take_from : (u : User) → (role q : String) → Job

unfoldable pub job_request : Job → Request
job_request (load_users q says) = load_request q
job_request (add_to u role q) = add_request u role
job_request (take_from u role q) = remove_request u role

-- The page, the requests in flight with the earliest first, all that were sent with the latest first, and
-- the load whose answer the table shows.
pub record System : Type 0 where
  pub page : Page
  pub in_flight : List Job
  pub sent : List Job
  pub table_of : Option (String × Value)

abbrev pub send : Job → System → System
send j s = record s { in_flight = s.in_flight ++ (j ∷ []); sent = j ∷ s.sent }

-- `load()` of the render with the text `q`.
abbrev pub start_load : String → Option String → System → System
start_load q says s =
    send (load_users q says) (record s { page = record s.page { loading = true } })

-- `removeRole`, and `addRole` with its guard.
abbrev pub start_take : String → Option User → System → System
start_take role none s = s
start_take role (some u) s = send (take_from u role s.page.q) s

abbrev pub start_add : Option User → System → System
start_add none s = s
start_add (some u) s =
    let more = send (add_to u s.page.new_role s.page.q) s in
    if s.page.new_role == "" then s else more

abbrev pub say : Option String → Page → Page
say none p = p
say (some text) p = record p { notices = success text ∷ p.notices }

abbrev pub select : Option User → Page → Page
select none p = p
select (some u) p = record p { selected = some (sync_selected p.users u) }

pub data Event : Type 0 where
  types : String → Event
  searches : Event
  selects : ℕ → Event
  chooses : String → Event
  clicks_add : Event
  closes_tag : String → Event
  answered : ℕ → Result Value → Event

module _ (read : Value → List User) where
  -- What follows the answer to a request that has left the list.
  abbrev pub settle : Job → Result Value → System → System
  settle (load_users q says) (ok v) s = record s {
    page = say says (loaded read (ok v) s.page);
    table_of = some (q, v);
  }
  settle (load_users q says) (err e) s = record s { page = say says (loaded read (err e) s.page) }
  settle (add_to u role q) (ok v) s =
      start_load q (some "Role added") (record s { page = record s.page { new_role = "" } })
  settle (take_from u role q) (ok v) s = start_load q (some "Role removed") s
  settle (add_to u role q) (err e) s = record s {
    page = record s.page { notices = thrown e "Failed to add role" ∷ s.page.notices };
  }
  settle (take_from u role q) (err e) s = record s {
    page = record s.page { notices = thrown e "Failed to remove role" ∷ s.page.notices };
  }

  abbrev pub arrive : Option Job → ℕ → Result Value → System → System
  arrive none n r s = s
  arrive (some j) n r s = settle j r (record s { in_flight = drop_nth n s.in_flight })

  -- A new text makes a new `load`, whose effect calls it; the text that is there already changes nothing. A
  -- row is selected by its place in the table, and an answer comes to the n-th request in flight.
  unfoldable pub step : System → Event → System
  unfolding sync_selected nth drop_nth
  step s (types q) =
      let more = start_load q none (record s { page = record s.page { q = q } }) in
      if q == s.page.q then s else more
  step s searches = start_load s.page.q none s
  step s (selects n) = record s { page = select (nth n s.page.users) s.page }
  step s (chooses role) = record s { page = record s.page { new_role = role } }
  step s clicks_add = start_add s.page.selected s
  step s (closes_tag role) = start_take role s.page.selected s
  step s (answered n r) = arrive (nth n s.in_flight) n r s

  abbrev pub run : System → List Event → System
  run = runs step

-- The page after its first render, whose effect has sent the first load.
unfoldable pub start : System
start = start_load "" none (record {
  page = record {
    q = "";
    loading = false;
    users = [];
    selected = none;
    roles = [];
    new_role = "";
    notices = [];
  };
  in_flight = [];
  sent = [];
  table_of = none;
})
