-- ===== src/Events/Registry.antt =====
-- The handlers of `subscribeEvents` in web/internal/src/api.ts: a `Map` from event types to `Set`s of
-- callbacks. Both keep the order of insertion. A callback is known by a number.
use helpdesk_go.Base.{
  ℕ, Bool, false, String, ◌==◌, ◌≡◌, refl, eq_iff, eqb, Option, none, some, List, [], ◌∷◌, ◌++◌,
  if◌then◌else◌, arith, All, ◌≢◌, ◌||◌, ◌∙◌,
}

abbrev pub Handlers : Type 0
Handlers = List (String × List ℕ)

-- `handlers.get(type)`
unfoldable pub lookup : String → Handlers → Option (List ℕ)
lookup type [] = none
lookup type ((t, set) ∷ m) = if t == type then some set else lookup type m

-- `set.has(h)`
unfoldable pub has : ℕ → List ℕ → Bool
has h [] = false
has h (g ∷ set) = eqb g h || has h set

-- `set.add(h)`: at the end, unless it is there.
unfoldable pub add : ℕ → List ℕ → List ℕ
unfolding has
add h set = if has h set then set else set ++ h ∷ []

-- `set.delete(h)`
unfoldable pub delete : ℕ → List ℕ → List ℕ
delete h [] = []
delete h (g ∷ set) = if eqb g h then set else g ∷ delete h set

-- `on(type, handler)` without its result: a new type goes to the end of the map.
unfoldable pub subscribe : String → ℕ → Handlers → Handlers
unfolding add
subscribe type h [] = (type, h ∷ []) ∷ []
subscribe type h ((t, set) ∷ m) =
    if t == type then (t, add h set) ∷ m else (t, set) ∷ subscribe type h m

abbrev without_empty : String → List ℕ → Handlers → Handlers
without_empty t [] m = m
without_empty t (h ∷ set) m = (t, h ∷ set) ∷ m

-- The function that `on` returns: the callback leaves its set, and an empty set leaves the map.
unfoldable pub unsubscribe : String → ℕ → Handlers → Handlers
unfolding delete
unsubscribe type h [] = []
unsubscribe type h ((t, set) ∷ m) =
    if t == type then without_empty t (delete h set) m else (t, set) ∷ unsubscribe type h m

abbrev none_is_empty : Option (List ℕ) → List ℕ
none_is_empty none = []
none_is_empty (some set) = set

-- `cbs?.forEach`: the callbacks that an event of this type calls, in order.
unfoldable pub callbacks : String → Handlers → List ℕ
unfolding lookup
callbacks type m = none_is_empty (lookup type m)

-- No set in the map is empty.
abbrev pub IsCompact : Handlers → Type 0
IsCompact = All (λ e. e.1 ≢ [])

-- Each type stands in the map at most once.
abbrev pub IsNew : String → Handlers → Type 0
IsNew t = All (λ e. e.0 ≢ t)

abbrev pub HasDistinctTypes : Handlers → Type 0
HasDistinctTypes [] = Unit
HasDistinctTypes ((t, set) ∷ m) = IsNew t m × HasDistinctTypes m

callbacks-unsubscribe_new : (type : String) (m : Handlers) → IsNew type m → callbacks type m ≡ []
unfolding callbacks
callbacks-unsubscribe_new type [] d = refl
callbacks-unsubscribe_new type ((t, set) ∷ m) d =
    ground (arith, eq_iff t type, callbacks-unsubscribe_new type m d.1)

-- Subscribing adds the callback to its own type and changes no other type.
pub callbacks-subscribe :
    (type other : String) (h : ℕ) (m : Handlers)
    → callbacks other (subscribe type h m)
      ≡ (if type == other then add h (callbacks other m) else callbacks other m)
unfolding callbacks subscribe
callbacks-subscribe type other h [] = ground arith
callbacks-subscribe type other h ((t, set) ∷ m) =
    ground
      (arith, eq_iff t type, eq_iff t other, eq_iff type other, callbacks-subscribe type other h m)

-- Unsubscribing takes the callback from its own type and changes no other type.
pub callbacks-unsubscribe :
    (type other : String) (h : ℕ) (m : Handlers)
    → HasDistinctTypes m
    → callbacks other (unsubscribe type h m)
      ≡ (if type == other then delete h (callbacks other m) else callbacks other m)
unfolding callbacks unsubscribe
callbacks-unsubscribe type other h [] d = ground arith
callbacks-unsubscribe type other h ((t, set) ∷ m) d = ground (
  arith,
  eq_iff t type,
  eq_iff t other,
  eq_iff type other,
  callbacks-unsubscribe type other h m d.1,
  callbacks-unsubscribe_new other m,
)

subscribe-IsNew :
    (t type : String) (h : ℕ) (m : Handlers) → type ≢ t → IsNew t m → IsNew t (subscribe type h m)
unfolding subscribe
subscribe-IsNew t type h [] ne n = (ne, tt)
subscribe-IsNew t type h ((u, set) ∷ m) ne n = ground (arith, subscribe-IsNew t type h m ne n.1)

unsubscribe-IsNew :
    (t type : String) (h : ℕ) (m : Handlers) → IsNew t m → IsNew t (unsubscribe type h m)
unfolding unsubscribe
unsubscribe-IsNew t type h [] n = tt
unsubscribe-IsNew t type h ((u, set) ∷ m) n = ground (arith, unsubscribe-IsNew t type h m n.1)

abbrev pub IsTidy : Handlers → Type 0
IsTidy m = HasDistinctTypes m × IsCompact m

add-ne-nil : (h : ℕ) (set : List ℕ) → add h set ≢ []
unfolding add
add-ne-nil h [] = ground arith
add-ne-nil h (g ∷ set) = ground arith

-- Subscribing and unsubscribing keep each type once in the map, and no set empty.
pub subscribe-IsTidy :
    (type : String) (h : ℕ) (m : Handlers) → IsTidy m → IsTidy (subscribe type h m)
unfolding subscribe
subscribe-IsTidy type h [] v = ground arith
subscribe-IsTidy type h ((t, set) ∷ m) v = ground (
  arith,
  eq_iff t type,
  add-ne-nil h set,
  subscribe-IsNew t type h m,
  subscribe-IsTidy type h m (v.0.1, v.1.1),
)

pub unsubscribe-IsTidy :
    (type : String) (h : ℕ) (m : Handlers) → IsTidy m → IsTidy (unsubscribe type h m)
unfolding unsubscribe
unsubscribe-IsTidy type h [] v = v
unsubscribe-IsTidy type h ((t, set) ∷ m) v =
    ground (arith, unsubscribe-IsNew t type h m v.0.0, unsubscribe-IsTidy type h m (v.0.1, v.1.1))

delete-add : (h : ℕ) (set : List ℕ) → has h set ≡ false → delete h (add h set) ≡ set
unfolding add delete has
delete-add h [] new = ground arith
delete-add h (g ∷ set) new = ground (arith, delete-add h set)

-- A subscription and its own unsubscription leave every type with the callbacks that it had, in
-- their order, where the callback was not subscribed to that type before.
pub unsubscribe-subscribe :
    (type other : String) (h : ℕ) (m : Handlers)
    → IsTidy m
    → has h (callbacks type m) ≡ false
    → callbacks other (unsubscribe type h (subscribe type h m)) ≡ callbacks other m
unsubscribe-subscribe type other h m v new =
    callbacks-unsubscribe type other h (subscribe type h m) (subscribe-IsTidy type h m v).0
    ∙ ground (
      arith,
      callbacks-subscribe type other h m,
      eq_iff type other,
      delete-add h (callbacks other m),
    )
