-- ===== src/Events/Status.antt =====
-- What the pages are told of the connection, `onStatus`: a page that was told that it is connected has
-- a socket that delivers, until it closes the subscription.
use helpdesk_go.Base.{
  subst, sym, ℕ, zero, suc, ◌≡◌, refl, ◌∙◌, Bool, true, false, Option, none, some, List, [], ◌∷◌,
  arith, runs-keep, String,
}
use helpdesk_go.Events.{
  Sub, Socket, Event, timer_fires, socket_opens, socket_closes, socket_fails, socket_message,
  socket_message_throws, call_until, message_throws, subscribes, unsubscribes, closes, Output,
  status, called, call_all, find_socket, step, start, run, message,
}
use helpdesk_go.Events.Registry.{callbacks}
use helpdesk_go.Events.Invariant.{Inv, start-Inv, step-Inv}

-- The last call of `onStatus`.
unfoldable pub last_status : List Output → Option Bool
last_status [] = none
last_status (status b ∷ out) = some b
last_status (called h ∷ out) = last_status out

abbrev pub Attached : List Socket → Type 0
Attached [] = ⊥
Attached (k ∷ ks) = k.attached ≡ true

record Heard (s : Sub) : Type 0 where
  inv : Inv s
  hears : s.should_reconnect ≡ true → last_status s.outputs ≡ some true → Attached s.sockets

last_status-call_all :
    (hs : List ℕ) (out : List Output) → last_status (call_all hs out) ≡ last_status out
unfolding last_status call_all
last_status-call_all [] out = refl
last_status-call_all (h ∷ hs) out = last_status-call_all hs (called h ∷ out)

last_status-message :
    (o : Option Bool) (type : Option String) (s : Sub)
    → last_status (message o type s).outputs ≡ last_status s.outputs
unfolding message
last_status-message (some true) (some type) s =
    last_status-call_all (callbacks type s.handlers) s.outputs
last_status-message (some true) none s = refl
last_status-message (some false) type s = refl
last_status-message none type s = refl

last_status-call_until :
    (n : ℕ) (hs : List ℕ) (out : List Output) → last_status (call_until n hs out) ≡ last_status out
unfolding last_status call_until
last_status-call_until n [] out = refl
last_status-call_until zero (h ∷ hs) out = refl
last_status-call_until (suc n) (h ∷ hs) out = last_status-call_until n hs (called h ∷ out)

last_status-message_throws :
    (o : Option Bool) (type : String) (n : ℕ) (s : Sub)
    → last_status (message_throws o type n s).outputs ≡ last_status s.outputs
unfolding message_throws
last_status-message_throws (some true) type n s =
    last_status-call_until n (callbacks type s.handlers) s.outputs
last_status-message_throws (some false) type n s = refl
last_status-message_throws none type n s = refl

hears-timer_fires :
    (s : Sub) (id : ℕ)
    → Heard s
    → (step s (timer_fires id)).should_reconnect ≡ true
    → last_status (step s (timer_fires id)).outputs ≡ some true
    → Attached (step s (timer_fires id)).sockets
unfolding step
hears-timer_fires s id v r l = ground (arith, v.inv, v.hears)

hears-socket_opens :
    (s : Sub) (id : ℕ)
    → Heard s
    → (step s (socket_opens id)).should_reconnect ≡ true
    → last_status (step s (socket_opens id)).outputs ≡ some true
    → Attached (step s (socket_opens id)).sockets
unfolding step last_status
hears-socket_opens s id v r l = ground (arith, v.inv, v.hears)

hears-socket_closes :
    (s : Sub) (id : ℕ)
    → Heard s
    → (step s (socket_closes id)).should_reconnect ≡ true
    → last_status (step s (socket_closes id)).outputs ≡ some true
    → Attached (step s (socket_closes id)).sockets
unfolding step last_status
hears-socket_closes s id v r l = ground (arith, v.inv, v.hears)

message-sockets :
    (o : Option Bool) (type : Option String) (s : Sub)
    → ((message o type s).sockets ≡ s.sockets)
      × ((message o type s).should_reconnect ≡ s.should_reconnect)
unfolding message
message-sockets (some true) (some type) s = (refl, refl)
message-sockets (some true) none s = (refl, refl)
message-sockets (some false) type s = (refl, refl)
message-sockets none type s = (refl, refl)

hears-socket_message :
    (s : Sub) (id : ℕ) (type : Option String)
    → Heard s
    → (step s (socket_message id type)).should_reconnect ≡ true
    → last_status (step s (socket_message id type)).outputs ≡ some true
    → Attached (step s (socket_message id type)).sockets
unfolding step
hears-socket_message s id type v r l =
    let o = find_socket id s.sockets in
    subst Attached (sym (message-sockets o type s).0)
      (v.hears (sym (message-sockets o type s).1 ∙ r) (sym (last_status-message o type s) ∙ l))

message_throws-sockets :
    (o : Option Bool) (type : String) (n : ℕ) (s : Sub)
    → ((message_throws o type n s).sockets ≡ s.sockets)
      × ((message_throws o type n s).should_reconnect ≡ s.should_reconnect)
unfolding message_throws
message_throws-sockets (some true) type n s = (refl, refl)
message_throws-sockets (some false) type n s = (refl, refl)
message_throws-sockets none type n s = (refl, refl)

hears-socket_message_throws :
    (s : Sub) (id : ℕ) (type : String) (n : ℕ)
    → Heard s
    → (step s (socket_message_throws id type n)).should_reconnect ≡ true
    → last_status (step s (socket_message_throws id type n)).outputs ≡ some true
    → Attached (step s (socket_message_throws id type n)).sockets
unfolding step
hears-socket_message_throws s id type n v r l =
    let o = find_socket id s.sockets in
    subst Attached (sym (message_throws-sockets o type n s).0) (
      v.hears (sym (message_throws-sockets o type n s).1 ∙ r)
        (sym (last_status-message_throws o type n s) ∙ l))

hears-step :
    (s : Sub) (e : Event)
    → Heard s
    → (step s e).should_reconnect ≡ true
    → last_status (step s e).outputs ≡ some true
    → Attached (step s e).sockets
unfolding step
hears-step s (timer_fires id) v r l = hears-timer_fires s id v r l
hears-step s (socket_opens id) v r l = hears-socket_opens s id v r l
hears-step s (socket_closes id) v r l = hears-socket_closes s id v r l
hears-step s (socket_message id type) v r l = hears-socket_message s id type v r l
hears-step s (socket_fails id) v r l = v.hears r l
hears-step s (subscribes t h) v r l = v.hears r l
hears-step s (unsubscribes t h) v r l = v.hears r l
hears-step s (socket_message_throws id type n) v r l = hears-socket_message_throws s id type n v r l
hears-step s closes v r l = cc

step-Heard : (s : Sub) (e : Event) → Heard s → Heard (step s e)
step-Heard s e v = record { inv = step-Inv s e v.inv; hears = λ r l. hears-step s e v r l }

start-Heard : Heard start
unfolding start last_status
start-Heard = record { inv = start-Inv; hears = λ r l. cc }

socket-found : (ks : List Socket) → Attached ks → (id : ℕ) × (find_socket id ks ≡ some true)
unfolding find_socket
socket-found [] a = absurd a
socket-found (k ∷ ks) a = (k.id, ground arith)

-- While a subscription has not been closed and its last status said that it is connected, there is a
-- socket over which messages reach it.
pub connected-socket :
    (es : List Event)
    → (run start es).should_reconnect ≡ true
    → last_status (run start es).outputs ≡ some true
    → (id : ℕ) × (find_socket id (run start es).sockets ≡ some true)
connected-socket es r l =
    socket-found (run start es).sockets
      ((runs-keep step Heard step-Heard start es start-Heard).hears r l)
