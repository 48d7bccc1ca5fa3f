-- ===== src/Events.antt =====
-- The server-sent events of the internal client: `subscribeEvents` of web/internal/src/api.ts.
-- Time is the order of the events: which timer fires, and which socket opens, closes or delivers a
-- message, is the browser's choice. The URL of the socket is left out.
pub mod Registry
pub mod Live
pub mod Delivery
pub mod Status
pub mod Invariant
pub mod Backoff
pub mod Closing
use helpdesk_go.Base.{
  runs, oldest, without_oldest, nth, drop_nth, ℕ, zero, suc, ◌*◌, min, Bool, true, false, String,
  Option, none, some, List, [], ◌∷◌, ◌++◌, eqb, map, if◌then◌else◌,
}
use Registry.{Handlers, subscribe, unsubscribe, callbacks}

-- A pending `window.setTimeout`: the inner function of `connect`, or `connect` itself.
pub data Task : Type 0 where
  open_socket reconnect : Task

pub record Timer : Type 0 where
  pub id : ℕ
  pub task : Task
  pub delay : ℕ

-- A socket that has not yet delivered its `close` event. `attached`: the four `on…` properties are
-- set; they are set together and cleared together.
pub record Socket : Type 0 where
  pub id : ℕ
  pub attached : Bool

-- What the subscriber sees: the calls of `onStatus` and of the handlers, the latest first.
pub data Output : Type 0 where
  status : Bool → Output
  called : ℕ → Output

-- `ws` and `timer` are the variables of the closure; `pending` and `sockets` belong to the browser.
pub record Sub : Type 0 where
  pub handlers : Handlers
  pub ws : Option ℕ
  pub timer : Option ℕ
  pub backoff : ℕ
  pub should_reconnect : Bool
  pub pending : List Timer
  pub sockets : List Socket
  pub next_id : ℕ
  pub outputs : List Output

-- `timer = window.setTimeout(task, delay)`
set_timer : Task → ℕ → Sub → Sub
set_timer task delay s = record s {
  timer = some s.next_id;
  pending = record { id = s.next_id; task = task; delay = delay } ∷ s.pending;
  next_id = suc s.next_id;
}

-- `connect()`
connect : Sub → Sub
unfolding set_timer
connect s = set_timer open_socket 50 s

pub drop_timer : ℕ → List Timer → List Timer
drop_timer id [] = []
drop_timer id (t ∷ ts) = if eqb t.id id then ts else t ∷ drop_timer id ts

pub find_timer : ℕ → List Timer → Option Task
find_timer id [] = none
find_timer id (t ∷ ts) = if eqb t.id id then some t.task else find_timer id ts

unfoldable pub find_socket : ℕ → List Socket → Option Bool
find_socket id [] = none
find_socket id (k ∷ ks) = if eqb k.id id then some k.attached else find_socket id ks

pub drop_socket : ℕ → List Socket → List Socket
drop_socket id [] = []
drop_socket id (k ∷ ks) = if eqb k.id id then ks else k ∷ drop_socket id ks

-- `ws.onclose = null; ws.onerror = null; ws.onopen = null; ws.onmessage = null`
pub detach : ℕ → List Socket → List Socket
detach id [] = []
detach id (k ∷ ks) = if eqb k.id id then record k { attached = false } ∷ ks else k ∷ detach id ks

-- The inner function of `connect`: a new socket with its handlers. The `ws.close()` before it asks
-- the browser to close the old socket, which goes on delivering events until its `close` event.
open_new : Sub → Sub
open_new s = record s {
  ws = some s.next_id;
  sockets = record { id = s.next_id; attached = true } ∷ s.sockets;
  next_id = suc s.next_id;
}

-- A timer fires: it is no longer pending, and its function runs.
fire : Option Task → ℕ → Sub → Sub
unfolding open_new connect drop_timer
fire none id s = s
fire (some open_socket) id s = open_new (record s { pending = drop_timer id s.pending })
fire (some reconnect) id s = connect (record s { pending = drop_timer id s.pending })

-- `ws.onopen`
opened : Option Bool → Sub → Sub
opened (some true) s = record s { backoff = 1000; outputs = status true ∷ s.outputs }
opened (some false) s = s
opened none s = s

abbrev pub max_backoff : ℕ
max_backoff = 30000

-- `ws.onclose`
on_close : Sub → Sub
unfolding set_timer
on_close s =
    let told = record s { outputs = status false ∷ s.outputs } in
    let again = set_timer reconnect s.backoff told in
    if s.should_reconnect then record again { backoff = min (s.backoff * 2) max_backoff } else told

-- The socket's `close` event, its last.
closed : Option Bool → ℕ → Sub → Sub
unfolding on_close drop_socket
closed (some true) id s = on_close (record s { sockets = drop_socket id s.sockets })
closed (some false) id s = record s { sockets = drop_socket id s.sockets }
closed none id s = s

pub call_all : List ℕ → List Output → List Output
call_all [] out = out
call_all (h ∷ hs) out = call_all hs (called h ∷ out)

-- The calls of a `forEach` that ends with the callback at a place, which throws.
pub call_until : ℕ → List ℕ → List Output → List Output
call_until n [] out = out
call_until zero (h ∷ hs) out = called h ∷ out
call_until (suc n) (h ∷ hs) out = call_until n hs (called h ∷ out)

-- `ws.onmessage`, where no callback throws. `none` is a text that `JSON.parse` refuses, which is only logged.
message : Option Bool → Option String → Sub → Sub
unfolding call_all
message (some true) (some type) s = record s {
  outputs = call_all (callbacks type s.handlers) s.outputs;
}
message (some true) none s = s
message (some false) _ s = s
message none _ s = s

-- `ws.onmessage`, where the callback at a place throws, which is only logged: the callbacks after it
-- are not called.
message_throws : Option Bool → String → ℕ → Sub → Sub
unfolding call_until
message_throws (some true) type n s = record s {
  outputs = call_until n (callbacks type s.handlers) s.outputs;
}
message_throws (some false) type n s = s
message_throws none type n s = s

abbrev clear_timer : Option ℕ → List Timer → List Timer
clear_timer none ts = ts
clear_timer (some id) ts = drop_timer id ts

abbrev detach_ws : Option ℕ → List Socket → List Socket
detach_ws none ks = ks
detach_ws (some id) ks = detach id ks

-- The result's `close`.
unfoldable pub close : Sub → Sub
unfolding drop_timer detach
close s = record s {
  should_reconnect = false;
  pending = clear_timer s.timer s.pending;
  sockets = detach_ws s.ws s.sockets;
}

-- What can happen. Of the messages, those during which a callback throws name its place. An event of a timer that is not pending, or of a socket that is gone, is none.
pub data Event : Type 0 where
  timer_fires : ℕ → Event
  socket_opens socket_closes socket_fails : ℕ → Event
  socket_message : ℕ → Option String → Event
  socket_message_throws : ℕ → String → ℕ → Event
  subscribes unsubscribes : String → ℕ → Event
  closes : Event

-- `ws.onerror` only logs.
unfoldable pub step : Sub → Event → Sub
unfolding fire opened closed message message_throws close find_timer find_socket
step s (timer_fires id) = fire (find_timer id s.pending) id s
step s (socket_opens id) = opened (find_socket id s.sockets) s
step s (socket_closes id) = closed (find_socket id s.sockets) id s
step s (socket_fails id) = s
step s (socket_message id type) = message (find_socket id s.sockets) type s
step s (socket_message_throws id type n) = message_throws (find_socket id s.sockets) type n s
step s (subscribes type h) = record s { handlers = subscribe type h s.handlers }
step s (unsubscribes type h) = record s { handlers = unsubscribe type h s.handlers }
step s closes = close s

-- `subscribeEvents(onStatus)`
unfoldable pub start : Sub
unfolding connect
start = connect (record {
  handlers = [];
  ws = none;
  timer = none;
  backoff = 1000;
  should_reconnect = true;
  pending = [];
  sockets = [];
  next_id = 1;
  outputs = [];
})

abbrev pub run : Sub → List Event → Sub
run = runs step
