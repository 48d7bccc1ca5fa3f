-- ===== src/Events/Invariant.antt =====
-- What holds of a subscription at any time.
use helpdesk_go.Base.{
  runs-keep, ℕ, ◌≤◌, ◌≡◌, Bool, true, false, Option, some, List, [], ◌∷◌, arith, String, All,
}
use helpdesk_go.Events.Registry.{IsTidy, subscribe-IsTidy, unsubscribe-IsTidy}
use helpdesk_go.Events.{
  Sub, Timer, Socket, Task, Event, open_socket, reconnect, timer_fires, socket_opens, socket_closes,
  socket_fails, socket_message, socket_message_throws, subscribes, unsubscribes, closes, step, run,
  start, max_backoff,
}

-- Either one timer is pending, which `timer` names, and no socket is open; or no timer is pending
-- and one socket is open, which `ws` names and whose handlers are attached.
abbrev pub IsLive : Option ℕ → Option ℕ → List Timer → List Socket → Type 0
IsLive ws timer (t ∷ []) [] = timer ≡ some t.id
IsLive ws timer [] (k ∷ []) = (ws ≡ some k.id) × (k.attached ≡ true)
IsLive ws timer _ _ = ⊥

-- After `close`: no timer is pending, and a socket that is still open has no handlers.
abbrev pub IsOver : List Timer → List Socket → Type 0
IsOver [] [] = Unit
IsOver [] (k ∷ []) = k.attached ≡ false
IsOver _ _ = ⊥

abbrev pub Phase : Bool → Option ℕ → Option ℕ → List Timer → List Socket → Type 0
Phase true ws timer pending sockets = IsLive ws timer pending sockets
Phase false ws timer pending sockets = IsOver pending sockets

-- The first delay is 50 ms; the wait before a new attempt is from one second to half a minute.
abbrev pub DelayOk : Task → ℕ → Type 0
DelayOk open_socket d = d ≡ 50
DelayOk reconnect d = (1000 ≤ d) × (d ≤ max_backoff)

pub record Inv (s : Sub) : Type 0 where
  pub phase : Phase s.should_reconnect s.ws s.timer s.pending s.sockets
  pub backoff_low : 1000 ≤ s.backoff
  pub backoff_high : s.backoff ≤ max_backoff
  pub delays : All (λ t. DelayOk t.task t.delay) s.pending
  pub tidy : IsTidy s.handlers

pub start-Inv : Inv start
unfolding start
start-Inv = ground arith

-- Each kind of event keeps the invariant.
timer_fires-Inv : (s : Sub) (id : ℕ) → Inv s → Inv (step s (timer_fires id))
unfolding step
timer_fires-Inv s id v = ground arith

socket_opens-Inv : (s : Sub) (id : ℕ) → Inv s → Inv (step s (socket_opens id))
unfolding step
socket_opens-Inv s id v = ground arith

socket_closes-Inv : (s : Sub) (id : ℕ) → Inv s → Inv (step s (socket_closes id))
unfolding step
socket_closes-Inv s id v = ground arith

socket_message-Inv :
    (s : Sub) (id : ℕ) (type : Option String) → Inv s → Inv (step s (socket_message id type))
unfolding step
socket_message-Inv s id type v = ground arith

socket_message_throws-Inv :
    (s : Sub) (id : ℕ) (type : String) (n : ℕ)
    → Inv s
    → Inv (step s (socket_message_throws id type n))
unfolding step
socket_message_throws-Inv s id type n v = ground arith

closes-Inv : (s : Sub) → Inv s → Inv (step s closes)
unfolding step
closes-Inv s v = ground arith

pub step-Inv : (s : Sub) (e : Event) → Inv s → Inv (step s e)
step-Inv s (timer_fires id) v = timer_fires-Inv s id v
step-Inv s (socket_opens id) v = socket_opens-Inv s id v
step-Inv s (socket_closes id) v = socket_closes-Inv s id v
step-Inv s (socket_fails id) v = unfold step in v
step-Inv s (socket_message id type) v = socket_message-Inv s id type v
step-Inv s (subscribes type h) v =
    unfold step in
    record {
      phase = v.phase;
      backoff_low = v.backoff_low;
      backoff_high = v.backoff_high;
      delays = v.delays;
      tidy = subscribe-IsTidy type h s.handlers v.tidy;
    }
step-Inv s (unsubscribes type h) v =
    unfold step in
    record {
      phase = v.phase;
      backoff_low = v.backoff_low;
      backoff_high = v.backoff_high;
      delays = v.delays;
      tidy = unsubscribe-IsTidy type h s.handlers v.tidy;
    }
step-Inv s (socket_message_throws id type n) v = socket_message_throws-Inv s id type n v
step-Inv s closes v = closes-Inv s v

-- Whatever the timers, the sockets and the subscribers do, a subscription has either one pending
-- timer or one open socket until it is closed, and neither a timer nor a socket with handlers
-- afterwards; every wait before a reconnection is from 1 to 30 seconds; no set of handlers is empty.
pub subscription-Inv : (es : List Event) → Inv (run start es)
subscription-Inv es = runs-keep step Inv step-Inv start es start-Inv
