-- ===== src/Debounce.antt =====
-- A search that waits for the typing to stop: `fetchUser` of
-- web/internal/src/components/agent/CreateTicketModal.tsx and the `search` of `AssigneePicker` in
-- web/internal/src/components/manager/QueueManager.tsx. Each keeps one timer, which a new text
-- replaces; when it fires, the text is searched for; the answers come back in any order.
pub mod Laws
use helpdesk_go.Base.{
  runs, oldest, without_oldest, nth, drop_nth, ℕ, zero, suc, Bool, false, String, Option, none,
  some, List, [], ◌∷◌, ◌++◌,
}

-- What the search shows: the options, and whether it is said to be running.
pub record Search : Type 0 where
  pub options : List (String × String)
  pub fetching : Bool

-- `fires`: what the timer's function does to a text, with the text to ask the server for.
-- `done`: what the answer does, `none` where the request failed.
pub record Code : Type 1 where
  pub Answer : Type 0
  pub fires : String → Search → Search × Option String
  pub done : Option Answer → Search → Search

pub record Box : Type 0 where
  pub search : Search
  pub timer : Option String
  pub in_flight : List String
  pub sent : List String

unfoldable pub closed_box : Box
closed_box = record {
  search = record { options = []; fetching = false };
  timer = none;
  in_flight = [];
  sent = [];
}

abbrev pub ask : Option String → Box → Box
ask none b = b
ask (some q) b = record b { in_flight = b.in_flight ++ q ∷ []; sent = q ∷ b.sent }

module _ (c : Code) where
  open c use {Answer, fires, done}

  pub data Event : Type 0 where
    types : String → Event
    timer_fires : Event
    answered : ℕ → Option Answer → Event

  abbrev pub fire : Option String → Box → Box
  fire none b = b
  fire (some q) b =
      let (s, asked) = fires q b.search in ask asked (record b { search = s; timer = none })

  abbrev pub arrive : Option String → ℕ → Option Answer → Box → Box
  arrive none n a b = b
  arrive (some q) n a b = record b { search = done a b.search; in_flight = drop_nth n b.in_flight }

  -- The answer to the n-th of the requests in flight arrives, where there is one.
  unfoldable pub step : Box → Event → Box
  unfolding nth drop_nth
  step b (types q) = record b { timer = some q }
  step b timer_fires = fire b.timer b
  step b (answered n a) = arrive (nth n b.in_flight) n a b

  abbrev pub run : Box → List Event → Box
  run = runs step
