-- ===== src/Events/Live.antt =====
-- What the registry of callbacks promises: a set of live callbacks for each type.
use helpdesk_go.Base.{
  if-keep, ℕ, ◌≡◌, refl, ◌∙◌, ap, Bool, true, false, ◌&&◌, ◌||◌, String, ◌==◌, eqb, List, [], ◌∷◌,
  ◌++◌, arith, if◌then◌else◌, Bool-cases, inl, inr, subst, sym, Option, some, none,
}
use helpdesk_go.Events.{
  Sub, Event, timer_fires, socket_opens, socket_closes, socket_fails, socket_message,
  socket_message_throws, subscribes, unsubscribes, closes, Task, fire, opened, closed, message,
  message_throws, find_timer, find_socket, step, start, run,
}
use helpdesk_go.Events.Registry.{
  Handlers, has, add, delete, callbacks, subscribe, unsubscribe, IsTidy, callbacks-subscribe,
  callbacks-unsubscribe, subscribe-IsTidy, unsubscribe-IsTidy,
}

-- The abstract registry: a callback is live for a type when it has been subscribed to it, and not
-- been unsubscribed since.
abbrev pub live_after : String → ℕ → Event → Bool → Bool
live_after type h (subscribes t g) was = if t == type && eqb g h then true else was
live_after type h (unsubscribes t g) was = if t == type && eqb g h then false else was
live_after type h _ was = was

abbrev pub live : String → ℕ → List Event → Bool → Bool
live type h [] was = was
live type h (e ∷ es) was = live type h es (live_after type h e was)

-- No callback twice.
abbrev pub HasNoRepeat : List ℕ → Type 0
HasNoRepeat [] = Unit
HasNoRepeat (h ∷ set) = (has h set ≡ false) × HasNoRepeat set

has-append : (h : ℕ) (xs ys : List ℕ) → has h (xs ++ ys) ≡ has h xs || has h ys
unfolding has
has-append h [] ys = refl
has-append h (x ∷ xs) ys = ground (arith, has-append h xs ys)

has-add : (h g : ℕ) (set : List ℕ) → has h (add g set) ≡ (if eqb g h then true else has h set)
unfolding add has
has-add h g set = ground (arith, has-append h set (g ∷ []))

has-delete :
    (h g : ℕ) (set : List ℕ)
    → HasNoRepeat set
    → has h (delete g set) ≡ (if eqb g h then false else has h set)
unfolding delete has
has-delete h g [] n = ground arith
has-delete h g (x ∷ set) n = ground (arith, has-delete h g set n.1)

append-HasNoRepeat :
    (g : ℕ) (xs : List ℕ) → HasNoRepeat xs → has g xs ≡ false → HasNoRepeat (xs ++ g ∷ [])
unfolding has
append-HasNoRepeat g [] n m = (refl, tt)
append-HasNoRepeat g (x ∷ xs) n m =
    ground (arith, has-append x xs (g ∷ []), append-HasNoRepeat g xs n.1)

add-HasNoRepeat : (g : ℕ) (set : List ℕ) → HasNoRepeat set → HasNoRepeat (add g set)
unfolding add
add-HasNoRepeat g set n = elim (Bool-cases (has g set)) [
  | inl old ↦ rw old n
  | inr new ↦ rw new (append-HasNoRepeat g set n new)
]

delete-HasNoRepeat : (g : ℕ) (set : List ℕ) → HasNoRepeat set → HasNoRepeat (delete g set)
unfolding delete
delete-HasNoRepeat g [] n = tt
delete-HasNoRepeat g (x ∷ set) n =
    ground (arith, has-delete x g set n.1, delete-HasNoRepeat g set n.1)

-- What a registry has in common with the abstract one.
pub record Refines (m : Handlers) (abstract : String → ℕ → Bool) : Type 0 where
  pub tidy : IsTidy m
  pub once : (type : String) → HasNoRepeat (callbacks type m)
  pub same : (type : String) (h : ℕ) → has h (callbacks type m) ≡ abstract type h

pub subscribe-Refines :
    (t : String) (g : ℕ) (m : Handlers) (abstract : String → ℕ → Bool)
    → Refines m abstract
    → Refines (subscribe t g m) (λ type h. live_after type h (subscribes t g) (abstract type h))
subscribe-Refines t g m abstract r = record {
  tidy = subscribe-IsTidy t g m r.tidy;
  once = λ type. rw (callbacks-subscribe t type g m) (
      if-keep HasNoRepeat (t == type) _ _ (λ _. add-HasNoRepeat g _ (r.once type))
        (λ _. r.once type));
  same = λ type h.
      ap (has h) (callbacks-subscribe t type g m)
      ∙ ground (arith, has-add h g (callbacks type m), r.same type h);
}

pub unsubscribe-Refines :
    (t : String) (g : ℕ) (m : Handlers) (abstract : String → ℕ → Bool)
    → Refines m abstract
    → Refines (unsubscribe t g m) (λ type h. live_after type h (unsubscribes t g) (abstract type h))
unsubscribe-Refines t g m abstract r = record {
  tidy = unsubscribe-IsTidy t g m r.tidy;
  once = λ type. rw (callbacks-unsubscribe t type g m r.tidy.0) (
      if-keep HasNoRepeat (t == type) _ _ (λ _. delete-HasNoRepeat g _ (r.once type))
        (λ _. r.once type));
  same = λ type h.
      ap (has h) (callbacks-unsubscribe t type g m r.tidy.0)
      ∙ ground (arith, has-delete h g (callbacks type m) (r.once type), r.same type h);
}

-- Only the subscribers change the registry.
fire-handlers : (o : Option Task) (id : ℕ) (s : Sub) → (fire o id s).handlers ≡ s.handlers
unfolding fire
fire-handlers o id s = ground arith

opened-handlers : (o : Option Bool) (s : Sub) → (opened o s).handlers ≡ s.handlers
unfolding opened
opened-handlers o s = ground arith

closed-handlers : (o : Option Bool) (id : ℕ) (s : Sub) → (closed o id s).handlers ≡ s.handlers
unfolding closed
closed-handlers o id s = ground arith

message-handlers :
    (o : Option Bool) (type : Option String) (s : Sub) → (message o type s).handlers ≡ s.handlers
unfolding message
message-handlers (some true) (some type) s = refl
message-handlers (some true) none s = refl
message-handlers (some false) type s = refl
message-handlers none type s = refl

message_throws-handlers :
    (o : Option Bool) (type : String) (n : ℕ) (s : Sub)
    → (message_throws o type n s).handlers ≡ s.handlers
unfolding message_throws
message_throws-handlers (some true) type n s = refl
message_throws-handlers (some false) type n s = refl
message_throws-handlers none type n s = refl

step-handlers :
    (s : Sub) (e : Event) (abstract : String → ℕ → Bool)
    → Refines s.handlers abstract
    → Refines (step s e).handlers (λ type h. live_after type h e (abstract type h))
unfolding step
step-handlers s (subscribes t g) abstract r = subscribe-Refines t g s.handlers abstract r
step-handlers s (unsubscribes t g) abstract r = unsubscribe-Refines t g s.handlers abstract r
step-handlers s (timer_fires id) abstract r =
    subst (λ m. Refines m abstract) (sym (fire-handlers (find_timer id s.pending) id s)) r
step-handlers s (socket_opens id) abstract r =
    subst (λ m. Refines m abstract) (sym (opened-handlers (find_socket id s.sockets) s)) r
step-handlers s (socket_closes id) abstract r =
    subst (λ m. Refines m abstract) (sym (closed-handlers (find_socket id s.sockets) id s)) r
step-handlers s (socket_fails id) abstract r = r
step-handlers s (socket_message id type) abstract r =
    subst (λ m. Refines m abstract) (sym (message-handlers (find_socket id s.sockets) type s)) r
step-handlers s (socket_message_throws id type n) abstract r =
    subst (λ m. Refines m abstract)
      (sym (message_throws-handlers (find_socket id s.sockets) type n s)) r
step-handlers s closes abstract r = r

run-handlers :
    (s : Sub) (es : List Event) (abstract : String → ℕ → Bool)
    → Refines s.handlers abstract
    → Refines (run s es).handlers (λ type h. live type h es (abstract type h))
run-handlers s [] abstract r = r
run-handlers s (e ∷ es) abstract r =
    run-handlers (step s e) es (λ type h. live_after type h e (abstract type h))
      (step-handlers s e abstract r)

start-handlers : Refines start.handlers (λ type h. false)
unfolding start callbacks has
start-handlers = record { tidy = (tt, tt); once = λ type. tt; same = λ type h. refl }

-- Whatever happens to a subscription, its registry refines the abstract one: for every type an event
-- during which no callback throws calls exactly the callbacks that were subscribed to the type and not
-- unsubscribed since, each of them once.
pub registry-Refines :
    (es : List Event) → Refines (run start es).handlers (λ type h. live type h es false)
registry-Refines es = run-handlers start es (λ type h. false) start-handlers
