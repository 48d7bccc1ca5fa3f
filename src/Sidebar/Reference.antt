-- ===== src/Sidebar/Reference.antt =====
-- The selected menu entry, without a sort: the search through the sorted entries against one pass
-- that keeps the longest.
use Prim.Native.String.{count}
use helpdesk_go.Base.{
  ℕ, ◌≤◌, ◌≡◌, refl, ap, ◌∙◌, Bool, true, String, leb, Option, none, some, List, [], ◌∷◌, arith,
  leb→le, find, if◌then◌else◌, Bool-cases, inl, inr,
}
use helpdesk_go.Sidebar.{
  Entry, NavGroup, concrete_items, place, sort_by_length, fits, pick, nested_match, selected_key,
}
use helpdesk_go.Sidebar.Selection.{IsSorted, Shorter, Shorter-mono, sort-IsSorted}

-- Of two entries the one with the longer path; of two that are as long, the first.
abbrev pub longer : Entry → Option Entry → Option Entry
longer e none = some e
longer e (some f) = if leb (count f.path) (count e.path) then some e else some f

-- The first of the longest entries that pass the test.
pub longest : (Entry → Bool) → List Entry → Option Entry
longest test [] = none
longest test (e ∷ es) = let rest = longest test es in if test e then longer e rest else rest

abbrev Below : ℕ → Option Entry → Type 0
Below n none = Unit
Below n (some f) = count f.path ≤ n

find-Below : (test : Entry → Bool) (n : ℕ) (es : List Entry) → Shorter n es → Below n (find test es)
find-Below test n [] s = tt
find-Below test n (e ∷ es) s = elim (Bool-cases (test e)) [
  | inl hit ↦ rw (hit, find) s.0
  | inr miss ↦ rw (miss, find) (find-Below test n es s.1)
]

longer-Below : (e : Entry) (o : Option Entry) → Below (count e.path) o → longer e o ≡ some e
longer-Below e none b = refl
longer-Below e (some f) b = ground arith

Shorter-cons :
    (e f : Entry) (fs : List Entry)
    → leb (count f.path) (count e.path) ≡ true
    → IsSorted (f ∷ fs)
    → Shorter (count e.path) (f ∷ fs)
Shorter-cons e f fs le s = (leb→le _ _ le, Shorter-mono (count f.path) _ fs (leb→le _ _ le) s.0)

-- Putting an entry at its place in a sorted list changes what is found first as little as that.
find-place :
    (test : Entry → Bool) (e : Entry) (es : List Entry)
    → IsSorted es
    → find test (place e es) ≡ (if test e then longer e (find test es) else find test es)
unfolding place
find-place test e [] s = ground arith
find-place test e (f ∷ fs) s = elim (Bool-cases (leb (count f.path) (count e.path))) [
  | inl le ↦ rw le (
      ground (
        arith,
        longer-Below e (find test (f ∷ fs))
            (find-Below test (count e.path) (f ∷ fs) (Shorter-cons e f fs le s)),
      ))
  | inr gt ↦ rw gt (ground (arith, find-place test e fs s.1))
]

-- The first hit in the sorted list is the first of the longest entries that pass.
find-sort :
    (test : Entry → Bool) (es : List Entry) → find test (sort_by_length es) ≡ longest test es
unfolding sort_by_length longest
find-sort test [] = refl
find-sort test (e ∷ es) =
    find-place test e (sort_by_length es) (sort-IsSorted es)
    ∙ ap (λ o. if test e then longer e o else o) (find-sort test es)

-- For every menu and location the selected entry is the first of those with the longest path that
-- fits the location, and the nested search decides only where none fits.
pub selected_key-longest :
    (items : List NavGroup) (pathname search : String)
    → selected_key items pathname search
      ≡ pick
          (longest (fits pathname search) (concrete_items items))
          (nested_match pathname search items)
unfolding selected_key
selected_key-longest items pathname search =
    ap (λ o. pick o (nested_match pathname search items))
      (find-sort (fits pathname search) (concrete_items items))
