-- ===== src/Manager/Live.antt =====
-- The manager's queue together with its subscription, which is to the same three kinds of message as the
-- agent's list.
use helpdesk_go.Base.{
  ℕ, ◌≡◌, ◌≢◌, refl, ◌⊎◌, inl, inr, Bool, true, false, Option, none, some, List, All,
}
use helpdesk_go.Queue.{subscribed_events}
use helpdesk_go.Queue.Live.{Reached, told_or_hears}
use helpdesk_go.Manager.{QueueManager, mount, set_connected, manager_query}
use helpdesk_go.Events.{Event}
use helpdesk_go.Events.Delivery.{Stays, listening}
use helpdesk_go.Events.Status.{last_status}

-- The page as the statuses so far have left it.
abbrev pub told : Option Bool → QueueManager → QueueManager
told none m = m
told (some b) m = set_connected b m

told-polls : (o : Option Bool) → o ≡ some false → (manager_query (told o mount)).1 ≡ some 5000
unfolding manager_query set_connected mount
told-polls o e = rw (e) refl

-- While the queue is mounted, from the first status on, it either asks for its tickets every five
-- seconds, or has a socket over which every message of the three kinds calls its handler once.
manager_polls_or_hears :
    (h : ℕ) (es : List Event)
    → All (Stays h) es
    → (listening subscribed_events h es).should_reconnect ≡ true
    → last_status (listening subscribed_events h es).outputs ≢ none
    → ((manager_query (told (last_status (listening subscribed_events h es).outputs) mount)).1
        ≡ some 5000)
      ⊎ Reached h (listening subscribed_events h es)
manager_polls_or_hears h es stays mounted heard = elim (told_or_hears h es stays mounted heard) [
  | inl e ↦ inl (told-polls _ e)
  | inr hears ↦ inr hears
]
