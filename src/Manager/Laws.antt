-- ===== src/Manager/Laws.antt =====
-- The manager's queue: what its cells show, what a change of assignee sends, and what the picker's
-- search does.
use Prim.Native.String.{[] as empty, ◌∷◌ as ◌∷∷◌, count}
use Prim.Native.Char.{Char}
use Prim.Native.String.count.{cons}
use text.Mathlib.TextLemmas.{length-append}
use helpdesk_go.Base.{
  ℕ, zero, suc, ◌-◌, ◌≤◌, ◌<◌, ◌≡◌, ◌≢◌, refl, ap, ◌∙◌, ◌⊎◌, arith, eq_iff, true, false, String,
  Option, none, some, List,
}
use helpdesk_go.Debounce.{Search, Event, closed_box, run}
use helpdesk_go.Debounce.Laws.{IsHonest, run-IsHonest}
use helpdesk_go.Manager.{take_chars, truncate, Assignee, picker, picker_fires, picker_done}

count-cons : (c : Char) (s : String) → count (c ∷∷ s) ≡ suc (count s)
count-cons c s = λ i. cons c s i

count-empty : count "" ≡ 0
count-empty = refl

count_of_empty : (s : String) → s ≡ "" → count s ≡ 0
count_of_empty s e = ap count e ∙ count-empty

count-take_chars : (n : ℕ) (s : String) → count (take_chars n s) ≤ n
unfolding take_chars
count-take_chars zero s = omega (arith, count-empty)
count-take_chars (suc n) empty = omega (arith, count-empty)
count-take_chars (suc n) (c ∷∷ s) =
    omega (arith, count-cons c (take_chars n s), count-take_chars n s)

count-ellipsis : count "…" ≡ 1
count-ellipsis = refl

-- A text is cut to at most `n` characters, and one that has no more is left as it is.
pub truncate_bounds :
    (s : String) (n : ℕ) → 0 < n → (count (truncate s n) ≤ n) × (count s ≤ n → truncate s n ≡ s)
unfolding truncate
truncate_bounds s n h = (
  ground (
    arith,
    eq_iff s "",
    count_of_empty s,
    length-append (take_chars (n - 1) s) "…",
    count-take_chars (n - 1) s,
    count-ellipsis,
  ),
  λ k. ground arith,
)

picker_fires-asks :
    (q : String) (s : Search)
    → (picker_fires q s).0.fetching ≡ true
    → (s.fetching ≡ true) ⊎ ((picker_fires q s).1 ≢ none)
unfolding picker_fires
picker_fires-asks q s h = ground arith

picker_done-rests : (a : Option (List Assignee)) (s : Search) → (picker_done a s).fetching ≡ false
unfolding picker_done
picker_done-rests none s = refl
picker_done-rests (some users) s = refl

-- Whatever is typed and however the answers come, the picker is said to be searching only while a
-- request is in flight.
pub picker-IsHonest : (es : List (Event picker)) → IsHonest picker (run picker closed_box es)
unfolding closed_box
picker-IsHonest es = run-IsHonest picker picker_fires-asks picker_done-rests closed_box es (λ e. cc)
