-- ===== src/Queue/Live.antt =====
-- The agent's list of tickets together with its subscription: what it learns of a change.
use helpdesk_go.Base.{
  zero, ◌-◌, includes, ap, arith, [], ◌∷◌, ℕ, suc, ◌≡◌, ◌≢◌, refl, ◌⊎◌, inl, inr, Bool, true, false,
  String, Option, none, some, List, All, ◌++◌,
}
use helpdesk_go.Queue.{QueueList, mount, current_query, status_received, subscribed_events}
use helpdesk_go.Events.{Sub, Event, socket_message, step}
use helpdesk_go.Events.Delivery.{Stays, listens, listening, calls, delivered_once}
use helpdesk_go.Events.{find_socket}
use helpdesk_go.Events.Delivery.{calls}
use helpdesk_go.Queue.{Page, event_received, data_changed}
use helpdesk_go.Queue.Paging.{IsLinked, all_items, load_pages, reload_pages-items}
use helpdesk_go.Events.Status.{last_status, connected-socket}

-- The list as the statuses so far have left it.
abbrev pub told : Option Bool → QueueList → QueueList
told none q = q
told (some b) q = status_received b q

abbrev pub list_of : List (String × String) → Sub → QueueList
list_of filters s = told (last_status s.outputs) (mount filters)

-- Over this socket a message of each kind that the list has subscribed to calls its handler once.
abbrev pub Delivers : ℕ → Sub → ℕ → Type 0
Delivers h s id =
    All (λ type. calls h (step s (socket_message id (some type))).outputs ≡ suc (calls h s.outputs))
      subscribed_events

-- A page that hears one of the list's messages over a socket, with the handler `h`.
abbrev pub Reached : ℕ → Sub → Type 0
Reached h s = (id : ℕ) × Delivers h s id

hears_if_told :
    (h : ℕ) (es : List Event)
    → All (Stays h) es
    → (listening subscribed_events h es).should_reconnect ≡ true
    → last_status (listening subscribed_events h es).outputs ≡ some true
    → Reached h (listening subscribed_events h es)
hears_if_told h es stays mounted up =
    let (id, found) = connected-socket (listens subscribed_events h ++ es) mounted up in
    (
      id,
      (
        delivered_once subscribed_events h es id "ticket_created" refl stays found,
        (
          delivered_once subscribed_events h es id "ticket_updated" refl stays found,
          (delivered_once subscribed_events h es id "queue_changed" refl stays found, tt),
        ),
      ),
    )

by_status : (o : Option Bool) (H : Type 0) → o ≢ none → (o ≡ some true → H) → (o ≡ some false) ⊎ H
by_status none H heard hears = absurd (heard refl)
by_status (some true) H heard hears = inr (hears refl)
by_status (some false) H heard hears = inl refl

-- From the first status on, a page that listens to the three kinds has been told that the socket is
-- closed, or hears.
pub told_or_hears :
    (h : ℕ) (es : List Event)
    → All (Stays h) es
    → (listening subscribed_events h es).should_reconnect ≡ true
    → last_status (listening subscribed_events h es).outputs ≢ none
    → (last_status (listening subscribed_events h es).outputs ≡ some false)
      ⊎ Reached h (listening subscribed_events h es)
told_or_hears h es stays mounted heard =
    by_status (last_status (listening subscribed_events h es).outputs)
      (Reached h (listening subscribed_events h es)) heard (hears_if_told h es stays mounted)

told-polls :
    (filters : List (String × String)) (o : Option Bool)
    → o ≡ some false
    → (current_query (told o (mount filters))).1 ≡ some 5000
unfolding current_query status_received
told-polls filters o e = rw (e) refl

-- While the list is mounted, from the first status on: whatever has happened to the subscription and
-- whoever else listens, the list either asks for its tickets every five seconds, or has a socket
-- over which every message of its three kinds, during which no callback throws, calls its handler
-- exactly once.
pub polls_or_hears :
    (filters : List (String × String)) (h : ℕ) (es : List Event)
    → All (Stays h) es
    → (listening subscribed_events h es).should_reconnect ≡ true
    → last_status (listening subscribed_events h es).outputs ≢ none
    → ((current_query (list_of filters (listening subscribed_events h es))).1 ≡ some 5000)
      ⊎ ((id : ℕ) × Delivers h (listening subscribed_events h es) id)
polls_or_hears filters h es stays mounted heard = elim (told_or_hears h es stays mounted heard) [
  | inl e ↦ inl (told-polls filters _ e)
  | inr hears ↦ inr hears
]

-- The list after its handler has run so often.
abbrev pub handled : ℕ → QueueList → QueueList
handled zero q = q
handled (suc n) q = event_received (handled n q)

-- How often the next message calls the handler.
abbrev pub called_by : String → ℕ → ℕ → Sub → ℕ
called_by type id h s = calls h (step s (socket_message id (some type))).outputs - calls h s.outputs

called_by-once :
    (h : ℕ) (es : List Event) (id : ℕ) (type : String)
    → includes subscribed_events type ≡ true
    → All (Stays h) es
    → find_socket id (listening subscribed_events h es).sockets ≡ some true
    → called_by type id h (listening subscribed_events h es) ≡ 1
called_by-once h es id type wanted stays found =
    omega (arith, delivered_once subscribed_events h es id type wanted stays found)

-- A message of one of the list's kinds, over an open socket, during which no callback throws, and whatever
-- pages the list had loaded: after its handler has run as often as the message calls it, the list shows
-- exactly the pages that are then loaded, in order, where every page names the next by a cursor and each
-- is answered once.
pub message_reloads :
    (h : ℕ) (es : List Event) (id : ℕ) (type : String) (q : QueueList) (p : Page) (ps : List Page)
    → includes subscribed_events type ≡ true
    → All (Stays h) es
    → find_socket id (listening subscribed_events h es).sockets ≡ some true
    → IsLinked p.next_cursor ps
    → (load_pages ps (
        data_changed
          (some p)
          (handled (called_by type id h (listening subscribed_events h es)) q))).items
      ≡ all_items (p ∷ ps)
message_reloads h es id type q p ps wanted stays found linked =
    reload_pages-items q (handled (called_by type id h (listening subscribed_events h es)) q) [] p
      ps (inl (ap (λ n. handled n q) (called_by-once h es id type wanted stays found))) linked
