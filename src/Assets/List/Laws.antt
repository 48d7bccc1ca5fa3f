-- ===== src/Assets/List/Laws.antt =====
-- The list of assets deletes an asset only as often as the user has asked to delete it.
use helpdesk_go.Base.{
  ℕ, suc, ◌+◌, ◌≤◌, Bool, true, false, String, ◌==◌, Option, none, some, List, [], ◌∷◌, arith, nth,
  if◌then◌else◌,
}
use helpdesk_go.Assets.List.{
  ListAsset, Page, mount, Event, clicks_delete, cancels, confirms, deleted, refused, step, run,
  handle_delete, answered,
}

-- How often the ID occurs.
abbrev pub times : String → List String → ℕ
times id [] = 0
times id (x ∷ xs) = if x == id then suc (times id xs) else times id xs

-- How often the user has clicked "Delete" in the menu of the asset.
abbrev pub clicks_in : String → Event → ℕ
clicks_in id (clicks_delete a) = if a.id == id then 1 else 0
clicks_in id _ = 0

abbrev pub clicks : String → List Event → ℕ
clicks id [] = 0
clicks id (e ∷ es) = clicks_in id e + clicks id es

-- The deletions sent of the asset, and the one that an open dialog may still send.
abbrev asked_times : String → Option ListAsset → ℕ
asked_times id none = 0
asked_times id (some a) = if a.id == id then 1 else 0

abbrev possible : String → Page → ℕ
possible id p = asked_times id p.asked + times id p.sent

answered-possible :
    (id : String) (n : ℕ) (good : Bool) (o : Option String) (p : Page)
    → possible id (answered n good o p) ≤ possible id p
answered-possible id n good o p = ground arith

step-possible :
    (id : String) (p : Page) (e : Event) → possible id (step p e) ≤ clicks_in id e + possible id p
unfolding step handle_delete
step-possible id p (clicks_delete a) = ground arith
step-possible id p cancels = ground arith
step-possible id p confirms = ground arith
step-possible id p (deleted n) = omega (arith, answered-possible id n true (nth n p.in_flight) p)
step-possible id p (refused n) = omega (arith, answered-possible id n false (nth n p.in_flight) p)

run-possible :
    (id : String) (p : Page) (es : List Event)
    → possible id (run p es) ≤ clicks id es + possible id p
run-possible id p [] = ground arith
run-possible id p (e ∷ es) = omega (arith, run-possible id (step p e) es, step-possible id p e)

-- Whatever the user does and in whatever order the server answers, no asset's deletion is sent more
-- often than "Delete" was clicked in the menu of that asset.
pub deletions_asked : (id : String) (es : List Event) → times id (run mount es).sent ≤ clicks id es
unfolding mount
deletions_asked id es = ground (arith, run-possible id mount es)
