-- ===== src/Events/Delivery.antt =====
-- How the events of the server reach a page that listens, as the lists of tickets do: the page puts
-- one callback in for each type of event that it wants, and leaves it there until it is unmounted.
use helpdesk_go.Base.{
  ℕ, suc, ◌+◌, ◌≡◌, ◌≢◌, refl, ap, ◌∙◌, Bool, true, false, String, eqb, Option, none, some, List,
  [], ◌∷◌, ◌++◌, map, includes, All, arith, if◌then◌else◌,
}
use helpdesk_go.Events.{
  Sub, Event, timer_fires, socket_opens, socket_closes, socket_fails, socket_message,
  socket_message_throws, subscribes, unsubscribes, closes, Output, status, called, call_all,
  message, find_socket, step, start, run,
}
use helpdesk_go.Events.Registry.{has, callbacks}
use helpdesk_go.Events.Live.{live, live_after, HasNoRepeat, registry-Refines}

-- The page's effect on mounting.
abbrev pub listens : List String → ℕ → List Event
listens types h = map (λ t. subscribes t h) types

-- The callback is not taken out.
abbrev pub Stays : ℕ → Event → Type 0
Stays h (unsubscribes t g) = g ≢ h
Stays h _ = Unit

abbrev pub listening : List String → ℕ → List Event → Sub
listening types h es = run start (listens types h ++ es)

-- How often the callback has been called.
pub calls : ℕ → List Output → ℕ
calls h [] = 0
calls h (status b ∷ out) = calls h out
calls h (called g ∷ out) = let rest = calls h out in if eqb g h then suc rest else rest

live-append :
    (type : String) (h : ℕ) (es fs : List Event) (was : Bool)
    → live type h (es ++ fs) was ≡ live type h fs (live type h es was)
live-append type h [] fs was = refl
live-append type h (e ∷ es) fs was = live-append type h es fs (live_after type h e was)

live_after-Stays : (type : String) (h : ℕ) (e : Event) → Stays h e → live_after type h e true ≡ true
live_after-Stays type h (subscribes t g) k = ground arith
live_after-Stays type h (unsubscribes t g) k = ground arith
live_after-Stays type h (timer_fires id) k = refl
live_after-Stays type h (socket_opens id) k = refl
live_after-Stays type h (socket_closes id) k = refl
live_after-Stays type h (socket_fails id) k = refl
live_after-Stays type h (socket_message id t) k = refl
live_after-Stays type h (socket_message_throws id t n) k = refl
live_after-Stays type h closes k = refl

live-Stays :
    (type : String) (h : ℕ) (es : List Event) → All (Stays h) es → live type h es true ≡ true
live-Stays type h [] k = refl
live-Stays type h (e ∷ es) k =
    ap (live type h es) (live_after-Stays type h e k.0) ∙ live-Stays type h es k.1

live-listens :
    (type : String) (h : ℕ) (types : List String) (was : Bool)
    → live type h (listens types h) was ≡ (if includes types type then true else was)
live-listens type h [] was = refl
live-listens type h (t ∷ types) was =
    live-listens type h types (live_after type h (subscribes t h) was) ∙ ground arith

-- How often a callback stands in a list.
times : ℕ → List ℕ → ℕ
times h [] = 0
times h (g ∷ set) = let rest = times h set in if eqb g h then suc rest else rest

calls-call_all :
    (h : ℕ) (set : List ℕ) (out : List Output)
    → calls h (call_all set out) ≡ times h set + calls h out
unfolding call_all calls times
calls-call_all h [] out = omega arith
calls-call_all h (g ∷ set) out = ground (arith, calls-call_all h set (called g ∷ out))

times-absent : (h : ℕ) (set : List ℕ) → has h set ≡ false → times h set ≡ 0
unfolding times has
times-absent h [] n = refl
times-absent h (g ∷ set) n = ground (arith, times-absent h set)

times-once : (h : ℕ) (set : List ℕ) → HasNoRepeat set → has h set ≡ true → times h set ≡ 1
unfolding times has
times-once h [] r k = cc
times-once h (g ∷ set) r k = ground (arith, times-once h set r.1, times-absent h set)

-- The callback of a page that listens stands once among those that an event of its types calls.
listening-times :
    (types : List String) (h : ℕ) (es : List Event) (type : String)
    → includes types type ≡ true
    → All (Stays h) es
    → times h (callbacks type (listening types h es).handlers) ≡ 1
listening-times types h es type wanted stays =
    let r = registry-Refines (listens types h ++ es) in
    times-once h _ (r.once type) (
      r.same type h
      ∙ live-append type h (listens types h) es false
      ∙ ap (live type h es) (live-listens type h types false ∙ ground arith)
      ∙ live-Stays type h es stays)

message-calls :
    (o : Option Bool) (type : String) (h : ℕ) (s : Sub)
    → o ≡ some true
    → calls h (message o (some type) s).outputs
      ≡ times h (callbacks type s.handlers) + calls h s.outputs
unfolding message
message-calls (some true) type h s e = calls-call_all h (callbacks type s.handlers) s.outputs
message-calls (some false) type h s e = cc
message-calls none type h s e = cc

-- A page that has put one callback in for several types of event, and has not taken it out since: a
-- message of one of these types over an open socket, during which no callback throws, calls the
-- callback exactly once, whatever else has happened to the subscription, callbacks that threw in
-- earlier messages included, and whoever else listens.
pub delivered_once :
    (types : List String) (h : ℕ) (es : List Event) (id : ℕ) (type : String)
    → includes types type ≡ true
    → All (Stays h) es
    → find_socket id (listening types h es).sockets ≡ some true
    → calls h (step (listening types h es) (socket_message id (some type))).outputs
      ≡ suc (calls h (listening types h es).outputs)
unfolding step
delivered_once types h es id type wanted stays opened = omega (
  arith,
  message-calls (find_socket id (listening types h es).sockets) type h (listening types h es)
      opened,
  listening-times types h es type wanted stays,
)
