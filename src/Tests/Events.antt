-- ===== src/Tests/Events.antt =====
-- A subscription at work.
use helpdesk_go.Queue.{Page, mount, data_changed}
use helpdesk_go.Queue.Paging.{all_items, load_pages}
use helpdesk_go.Queue.Live.{handled, called_by, message_reloads}
use helpdesk_go.Base.{Bool, ◌⊎◌, ◌≢◌, none, ℕ}
use helpdesk_go.Queue.Live.{Delivers, list_of, polls_or_hears}
use helpdesk_go.Queue.{current_query}
use helpdesk_go.Events.Status.{last_status}
use helpdesk_go.Base.{suc, ◌≡◌, refl, true, false, List, [], ◌∷◌, some}
use helpdesk_go.Events.{
  Event, reconnect, timer_fires, socket_opens, socket_closes, socket_message, socket_message_throws,
  subscribes, unsubscribes, run, start, step, close, status, called,
}
use helpdesk_go.Events.Registry.{Handlers, callbacks, subscribe, unsubscribe}
use helpdesk_go.Events.Live.{Refines, live, registry-Refines}
use helpdesk_go.Events.Invariant.{Inv, subscription-Inv}
use helpdesk_go.Events.{find_socket}
use helpdesk_go.Events.Delivery.{calls, listening as mounted, delivered_once}
use helpdesk_go.Queue.{subscribed_events}
use helpdesk_go.Events.Closing.{close_silences}
use helpdesk_go.Events.Backoff.{attempts, waits, backoff_after_failures}

abbrev session : List Event
session =
    timer_fires 1
    ∷ socket_opens 2
    ∷ subscribes "ticket_created" 7
    ∷ socket_message 2 (some "ticket_created")
    ∷ socket_closes 2
    ∷ timer_fires 3
    ∷ []

session_outputs : (run start session).outputs ≡ status false ∷ called 7 ∷ status true ∷ []
unfolding start step callbacks subscribe
session_outputs = refl

subscription-Inv_example : Inv (run start session)
subscription-Inv_example = subscription-Inv session

close_silences_example :
    (run (close (run start session)) (timer_fires 4 ∷ socket_opens 5 ∷ [])).outputs
    ≡ (run start session).outputs
close_silences_example = close_silences session (timer_fires 4 ∷ socket_opens 5 ∷ [])

backoff_after_failures_example : waits (run start (attempts 3 1)) ≡ (reconnect, 8000) ∷ []
backoff_after_failures_example = backoff_after_failures 3

abbrev listening : Handlers
listening = ("ticket_created", 1 ∷ []) ∷ ("queue_changed", 2 ∷ []) ∷ []

abbrev comings_and_goings : List Event
comings_and_goings =
    subscribes "ticket_created" 7
    ∷ subscribes "ticket_created" 8
    ∷ subscribes "ticket_created" 7
    ∷ unsubscribes "ticket_created" 8
    ∷ []

one_left : callbacks "ticket_created" (run start comings_and_goings).handlers ≡ 7 ∷ []
unfolding start step callbacks subscribe unsubscribe
one_left = refl

registry-Refines_example :
    Refines (run start comings_and_goings).handlers (λ type h. live type h comings_and_goings false)
registry-Refines_example = registry-Refines comings_and_goings

abbrev connected : List Event
connected = timer_fires 1 ∷ socket_opens 2 ∷ subscribes "queue_changed" 4 ∷ []

delivered_once_example :
    calls 9
      (step
        (mounted subscribed_events 9 connected)
        (socket_message 2 (some "queue_changed"))).outputs
    ≡ suc (calls 9 (mounted subscribed_events 9 connected).outputs)
unfolding step start find_socket
delivered_once_example =
    delivered_once subscribed_events 9 connected 2 "queue_changed" refl (tt, (tt, (tt, tt))) refl

-- The first of two callbacks throws, so the second is not called.
cut_short :
    (run start (
      timer_fires 1
      ∷ socket_opens 2
      ∷ subscribes "ticket_created" 7
      ∷ subscribes "ticket_created" 8
      ∷ socket_message_throws 2 "ticket_created" 0
      ∷ [])).outputs
    ≡ called 7 ∷ status true ∷ []
unfolding start step callbacks subscribe
cut_short = refl

-- The list is told of its socket, of its end, and of the next one.
abbrev reconnected : List Event
reconnected = timer_fires 1 ∷ socket_opens 2 ∷ socket_closes 2 ∷ timer_fires 3 ∷ socket_opens 4 ∷ []

heard_some : {b : Bool} → some b ≢ none
heard_some e = cc

reconnected_heard : last_status (mounted subscribed_events 9 reconnected).outputs ≢ none
unfolding step start last_status
reconnected_heard = heard_some

polls_or_hears_example :
    ((current_query (list_of [] (mounted subscribed_events 9 reconnected))).1 ≡ some 5000)
    ⊎ ((id : ℕ) × Delivers 9 (mounted subscribed_events 9 reconnected) id)
unfolding step start
polls_or_hears_example =
    polls_or_hears [] 9 reconnected (tt, (tt, (tt, (tt, (tt, tt))))) refl reconnected_heard

abbrev first_page : Page
first_page = record { items = []; next_cursor = some "c2" }

abbrev last_page : Page
last_page = record { items = []; next_cursor = none }

message_reloads_example :
    (load_pages (last_page ∷ []) (
      data_changed (some first_page) (
        handled
          (called_by "queue_changed" 2 9 (mounted subscribed_events 9 connected))
          (mount [])))).items
    ≡ all_items (first_page ∷ last_page ∷ [])
unfolding step start find_socket
message_reloads_example =
    message_reloads 9 connected 2 "queue_changed" (mount []) first_page (last_page ∷ []) refl
      (tt, (tt, (tt, tt))) refl (refl, tt)
