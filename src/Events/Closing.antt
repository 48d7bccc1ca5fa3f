-- ===== src/Events/Closing.antt =====
-- `close` of a subscription is final.
use helpdesk_go.Base.{◌≡◌, refl, ◌∙◌, false, List, [], ◌∷◌, arith}
use helpdesk_go.Events.{Sub, Event, timer_fires, socket_closes, closes, step, run, start, close}
use helpdesk_go.Events.Invariant.{Inv, IsOver, subscription-Inv, step-Inv}

-- A subscription that has been closed.
record IsClosed (s : Sub) : Type 0 where
  stopped : s.should_reconnect ≡ false
  over : IsOver s.pending s.sockets

close-IsClosed : (s : Sub) → Inv s → IsClosed (close s)
unfolding close
close-IsClosed s v = ground (arith, step_over)
  where
    step_over : IsOver (close s).pending (close s).sockets
    step_over = unfold step in (step-Inv s closes v).phase

step-IsClosed : (s : Sub) (e : Event) → IsClosed s → IsClosed (step s e)
unfolding step
step-IsClosed s (timer_fires id) v = ground arith
step-IsClosed s (socket_closes id) v = ground arith
step-IsClosed s closes v = ground arith
step-IsClosed s e v = ground arith

step-outputs : (s : Sub) (e : Event) → IsClosed s → (step s e).outputs ≡ s.outputs
unfolding step
step-outputs s (timer_fires id) v = ground arith
step-outputs s (socket_closes id) v = ground arith
step-outputs s e v = ground arith

run-outputs : (s : Sub) (es : List Event) → IsClosed s → (run s es).outputs ≡ s.outputs
run-outputs s [] v = refl
run-outputs s (e ∷ es) v = run-outputs (step s e) es (step-IsClosed s e v) ∙ step-outputs s e v

-- Once a subscription has been closed, at any time of its life, no handler and no status callback is
-- called any more, whatever the timers and the sockets do.
pub close_silences :
    (before after : List Event)
    → (run (close (run start before)) after).outputs ≡ (run start before).outputs
close_silences before after =
    run-outputs (close (run start before)) after
      (close-IsClosed (run start before) (subscription-Inv before))
    ∙ unfold close in refl
