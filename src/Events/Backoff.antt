-- ===== src/Events/Backoff.antt =====
-- The waits between attempts to connect.
use Prim.Native.Nat.{◌^◌}
use native.Mathlib.Nat.{pow-suc, add-zero, add-suc, suc-add, zero-add}
use helpdesk_go.Base.{
  ℕ, zero, suc, ◌+◌, ◌*◌, ◌≡◌, refl, ap, map, ◌∙◌, min, true, List, [], ◌∷◌, arith,
}
use helpdesk_go.Events.{
  Sub, Event, Task, open_socket, reconnect, timer_fires, socket_closes, step, run, start,
  max_backoff,
}

-- A subscription whose next attempt to connect is due when timer `n` fires.
record IsDue (n : ℕ) (s : Sub) : Type 0 where
  waiting : s.pending ≡ record { id = n; task = open_socket; delay = 50 } ∷ []
  alone : s.sockets ≡ []
  wanted : s.should_reconnect ≡ true
  next : s.next_id ≡ suc n

abbrev after_failure : ℕ → Sub → Sub
after_failure n s =
    step (step (step s (timer_fires n)) (socket_closes (suc n))) (timer_fires (suc (suc n)))

after_failure-IsDue : (n : ℕ) (s : Sub) → IsDue n s → IsDue (suc (suc (suc n))) (after_failure n s)
unfolding step
after_failure-IsDue n s d = ground arith

backoff-after_failure :
    (n : ℕ) (s : Sub) → IsDue n s → (after_failure n s).backoff ≡ min (s.backoff * 2) max_backoff
unfolding step
backoff-after_failure n s d = ground arith

doubled :
    (j : ℕ) (b : ℕ)
    → b ≡ min (1000 * 2 ^ j) 30000
    → min (b * 2) 30000 ≡ min (1000 * 2 ^ suc j) 30000
doubled j b h = omega (arith, pow-suc 2 j)

start-IsDue : IsDue 1 start
unfolding start
start-IsDue = record { waiting = refl; alone = refl; wanted = refl; next = refl }

-- `k` attempts in a row, from timer `n` on, and one more, at which the socket closes without having
-- opened; the reconnection after the last has not begun.
abbrev pub attempts : ℕ → ℕ → List Event
attempts zero n = timer_fires n ∷ socket_closes (suc n) ∷ []
attempts (suc k) n =
    timer_fires n
    ∷ socket_closes (suc n)
    ∷ timer_fires (suc (suc n))
    ∷ attempts k (suc (suc (suc n)))

-- What the pending timers will do, and when.
abbrev pub waits : Sub → List (Task × ℕ)
waits s = map (λ t. (t.task, t.delay)) s.pending

waits-attempt :
    (n : ℕ) (s : Sub)
    → IsDue n s
    → waits (step (step s (timer_fires n)) (socket_closes (suc n))) ≡ (reconnect, s.backoff) ∷ []
unfolding step
waits-attempt n s d = ground arith

waits-attempts :
    (k j n : ℕ) (s : Sub)
    → IsDue n s
    → s.backoff ≡ min (1000 * 2 ^ j) 30000
    → waits (run s (attempts k n)) ≡ (reconnect, min (1000 * 2 ^ (j + k)) 30000) ∷ []
waits-attempts zero j n s d h =
    rw (add-zero) (waits-attempt n s d ∙ ap (λ b. (reconnect, b) ∷ []) h)
waits-attempts (suc k) j n s d h =
    rw (add-suc, ← suc-add)
      (waits-attempts k (suc j) (suc (suc (suc n))) (after_failure n s) (after_failure-IsDue n s d)
        (backoff-after_failure n s d ∙ doubled j s.backoff h))

-- From the start, after `k` attempts in a row that failed and one more: one timer is pending, that of
-- the next attempt, and it waits for 1000 * 2 ^ k milliseconds, and half a minute at most.
pub backoff_after_failures :
    (k : ℕ) → waits (run start (attempts k 1)) ≡ (reconnect, min (1000 * 2 ^ k) 30000) ∷ []
backoff_after_failures k =
    rw (zero-add) at (waits-attempts k 0 1 start start-IsDue (unfold start in refl))
