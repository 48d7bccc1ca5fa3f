-- ===== src/Sidebar/Selection.antt =====
-- Which menu entry is selected.
use Prim.Native.String.{count}
use text.Mathlib.TextLemmas.{append-nil, cons-ne-nil, length-append, length-pos_iff}
use mathlib.Core.Path.{subst₂}
use helpdesk_go.Base.{
  ℕ, ◌≤◌, ◌≡◌, refl, sym, subst, ◌∙◌, ◌⊎◌, inl, inr, Bool, true, String, ◌<>◌, some, List, [], ◌∷◌,
  arith, find, All, eq_iff, Bool-cases,
}
use helpdesk_go.Sidebar.{Entry, NavGroup, concrete_items, place, sort_by_length, fits, selected_key}

-- The longest path first.
abbrev pub IsSorted : List Entry → Type 0
IsSorted [] = Unit
IsSorted (e ∷ es) = All (λ f. count f.path ≤ count e.path) es × IsSorted es

abbrev pub Shorter : ℕ → List Entry → Type 0
Shorter n = All (λ f. count f.path ≤ n)

pub Shorter-mono : (m n : ℕ) (es : List Entry) → m ≤ n → Shorter m es → Shorter n es
Shorter-mono m n [] h s = tt
Shorter-mono m n (e ∷ es) h s = (omega arith, Shorter-mono m n es h s.1)

place-Shorter :
    (n : ℕ) (e : Entry) (es : List Entry) → count e.path ≤ n → Shorter n es → Shorter n (place e es)
unfolding place
place-Shorter n e [] h s = (h, tt)
place-Shorter n e (f ∷ fs) h s = ground (arith, place-Shorter n e fs h s.1)

place-IsSorted : (e : Entry) (es : List Entry) → IsSorted es → IsSorted (place e es)
unfolding place
place-IsSorted e [] s = (tt, tt)
place-IsSorted e (f ∷ fs) s = ground (
  arith,
  place-IsSorted e fs s.1,
  place-Shorter (count f.path) e fs,
  Shorter-mono (count f.path) (count e.path) fs,
)

pub sort-IsSorted : (es : List Entry) → IsSorted (sort_by_length es)
unfolding sort_by_length
sort-IsSorted [] = tt
sort-IsSorted (e ∷ es) = place-IsSorted e (sort_by_length es) (sort-IsSorted es)

-- An entry of the list.
abbrev pub Has : Entry → List Entry → Type 0
Has e [] = ⊥
Has e (f ∷ fs) = (f ≡ e) ⊎ Has e fs

place-Has : (e f : Entry) (es : List Entry) → (e ≡ f) ⊎ Has f es → Has f (place e es)
unfolding place
place-Has e f [] h = h
place-Has e f (g ∷ gs) h = ground (arith, place-Has e f gs)

sort-Has : (e : Entry) (es : List Entry) → Has e es → Has e (sort_by_length es)
unfolding sort_by_length
sort-Has e [] h = h
sort-Has e (f ∷ fs) (inl h) = place-Has f e (sort_by_length fs) (inl h)
sort-Has e (f ∷ fs) (inr h) = place-Has f e (sort_by_length fs) (inr (sort-Has e fs h))

Has-place : (e f : Entry) (es : List Entry) → Has f (place e es) → (e ≡ f) ⊎ Has f es
unfolding place
Has-place e f [] h = h
Has-place e f (g ∷ gs) h = ground (arith, Has-place e f gs)

Has-sort : (e : Entry) (es : List Entry) → Has e (sort_by_length es) → Has e es
unfolding sort_by_length
Has-sort e [] h = h
Has-sort e (f ∷ fs) h = elim (Has-place f e (sort_by_length fs) h) [
  | inl p ↦ inl p
  | inr q ↦ inr (Has-sort e fs q)
]

Shorter-Has : (n : ℕ) (y : Entry) (es : List Entry) → Shorter n es → Has y es → count y.path ≤ n
Shorter-Has n y [] s h = elim h [ ]
Shorter-Has n y (e ∷ es) s (inl p) = subst (λ z. count z.path ≤ n) p s.0
Shorter-Has n y (e ∷ es) s (inr h) = Shorter-Has n y es s.1 h

-- The first entry of a sorted list that passes a test is a longest one.
record Longest (test : Entry → Bool) (y : Entry) (es : List Entry) : Type 0 where
  entry : Entry
  found : find test es ≡ some entry
  member : Has entry es
  passes : test entry ≡ true
  longest : count y.path ≤ count entry.path

find-Longest :
    (test : Entry → Bool) (y : Entry) (es : List Entry)
    → IsSorted es
    → Has y es
    → test y ≡ true
    → Longest test y es
find-Longest test y [] s h t = elim h [ ]
find-Longest test y (e ∷ es) s h t = elim (Bool-cases (test e)) [
  | inl hit ↦ record {
    entry = e;
    found = rw (hit, find);
    member = inl refl;
    passes = hit;
    longest = Shorter-Has (count e.path) y (e ∷ es) (omega arith, s.0) h;
  }
  | inr miss ↦ elim h [
    | inl p ↦ cc
    | inr k ↦
        let rest = find-Longest test y es s.1 k t in
        record {
          entry = rest.entry;
          found = rw (miss, find) rest.found;
          member = inr rest.member;
          passes = rest.passes;
          longest = rest.longest;
        }
  ]
]

empty_of_count : (s t : String) → count (s <> t) ≤ count s → s <> t ≡ s
empty_of_count s String.[] h = append-nil s
empty_of_count s (String.◌∷◌ c t) h =
    absurd (omega (arith, length-append s (String.◌∷◌ c t), length-pos_iff.1 (cons-ne-nil c t)))

fits_cases :
    (pathname search : String) (e : Entry)
    → fits pathname search e ≡ true
    → (e.path ≡ pathname <> search) ⊎ (e.path ≡ pathname)
fits_cases pathname search e h =
    ground (arith, eq_iff (pathname <> search) e.path, eq_iff pathname e.path, eq_iff e.path "/")

fits_exact :
    (pathname search : String) (e : Entry)
    → e.path ≡ pathname <> search
    → fits pathname search e ≡ true
fits_exact pathname search e h = ground (arith, eq_iff (pathname <> search) e.path)

longest_exact :
    (pathname search : String) (x y : Entry)
    → y.path ≡ pathname <> search
    → fits pathname search x ≡ true
    → count y.path ≤ count x.path
    → x.path ≡ pathname <> search
longest_exact pathname search x y e h le = elim (fits_cases pathname search x h) [
  | inl p ↦ p
  | inr p ↦ p ∙ sym (empty_of_count pathname search (subst₂ (λ a b. count a ≤ count b) e p le))
]

-- Where some entry of the menu leads to the current location, path and query, the selected entry is
-- one that leads exactly there, whatever other entries lead to a part of it.
pub selected_key_exact :
    (items : List NavGroup) (pathname search : String) (y : Entry)
    → Has y (concrete_items items)
    → y.path ≡ pathname <> search
    → (x : Entry) × Has x (concrete_items items)
      × (x.path ≡ pathname <> search)
      × (selected_key items pathname search ≡ x.key)
unfolding selected_key
selected_key_exact items pathname search y h e = (
  hit.entry,
  Has-sort hit.entry (concrete_items items) hit.member,
  longest_exact pathname search hit.entry y e hit.passes hit.longest,
  rw hit.found,
)
  where
    sorted : List Entry
    sorted = sort_by_length (concrete_items items)

    hit : Longest (fits pathname search) y sorted
    hit =
        find-Longest (fits pathname search) y sorted (sort-IsSorted (concrete_items items))
          (sort-Has y (concrete_items items) h) (fits_exact pathname search y e)
