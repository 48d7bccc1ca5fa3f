-- ===== src/Assets/Detail/Laws.antt =====
-- The page of an asset: deletions are confirmed, and every cell shows a text.
use helpdesk_go.Base.{ℕ, suc, ◌+◌, ◌≤◌, arith, List, [], ◌∷◌, if◌then◌else◌}
use helpdesk_go.Assets.Detail.{
  Page, mount, Event, opens, cancels, confirms, deleted, refused, step, run, handle_delete,
}

-- How often the button "Delete" has been clicked.
abbrev pub opens_in : Event → ℕ
opens_in opens = 1
opens_in _ = 0

abbrev pub openings : List Event → ℕ
openings [] = 0
openings (e ∷ es) = opens_in e + openings es

-- The deletions sent, and the one that an open dialog may still send.
abbrev possible : Page → ℕ
possible p = if p.delete_modal_visible then suc p.sent else p.sent

step-possible : (p : Page) (e : Event) → possible (step p e) ≤ opens_in e + possible p
unfolding step handle_delete
step-possible p opens = ground arith
step-possible p cancels = ground arith
step-possible p confirms = ground arith
step-possible p deleted = ground arith
step-possible p refused = ground arith

run-possible : (p : Page) (es : List Event) → possible (run p es) ≤ openings es + possible p
run-possible p [] = ground arith
run-possible p (e ∷ es) = omega (arith, run-possible (step p e) es, step-possible p e)

-- Whatever the user does and however the server answers, no more deletions are sent than the dialog
-- that confirms them was opened.
pub deletions_confirmed : (es : List Event) → (run mount es).sent ≤ openings es
unfolding mount
deletions_confirmed es = ground (arith, run-possible mount es)
