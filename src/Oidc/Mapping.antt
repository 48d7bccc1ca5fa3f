-- ===== src/Oidc/Mapping.antt =====
-- A role mapping that is shown and saved again is the same mapping.
use Prim.Native.Char.{Char, char}
use Prim.Native.String.{[] as empty, ◌∷◌ as ◌∷∷◌}
use text.Mathlib.TextLemmas.{nil-append, cons-append, append-nil, cons-ne-nil}
use helpdesk_go.Base.{
  ◌≡◌, refl, sym, ap, ◌∙◌, true, false, String, ◌==◌, eq_iff, ◌<>◌, nonempty, ◌&&◌, Bool, Option,
  none, some, List, [], ◌∷◌, map, keep, All, arith, if◌then◌else◌, Bool-cases, inl, inr,
}
use helpdesk_go.Oidc.{
  Mappings, is_comma, put_first, split, trim, join, rows_of, parse_roles, assign, collect, payload,
  are_rows_valid, submit_rows,
}

abbrev pub HasNoComma : String → Type 0
HasNoComma empty = Unit
HasNoComma (c ∷∷ s) = (is_comma c ≡ false) × HasNoComma s

-- A role's name as the form can write it: not empty, with no comma and no space at its ends.
pub record IsClean (role : String) : Type 0 where
  pub no_comma : HasNoComma role
  pub trimmed : trim role ≡ role
  pub named : nonempty role ≡ true

abbrev before : String → List String → List String
before r [] = r ∷ []
before r (s ∷ ss) = (r <> s) ∷ ss

put_first-before :
    (c : Char) (r : String) (xs : List String) → put_first c (before r xs) ≡ before (c ∷∷ r) xs
put_first-before c r [] = refl
put_first-before c r (s ∷ ss) = ap (λ x. x ∷ ss) (sym (cons-append c r s))

before-put_first : (c : Char) (xs : List String) → before "" (put_first c xs) ≡ put_first c xs
before-put_first c [] = ap (λ x. x ∷ []) (nil-append (c ∷∷ ""))
before-put_first c (s ∷ ss) = ap (λ x. x ∷ ss) (nil-append (c ∷∷ s))

before-nil : (t : String) → before "" (split t) ≡ split t
unfolding split
before-nil empty = ap (λ x. x ∷ []) (nil-append "")
before-nil (c ∷∷ s) = elim (Bool-cases (is_comma c)) [
  | inl e ↦ rw e (ap (λ x. x ∷ split s) (nil-append ""))
  | inr e ↦ rw e (before-put_first c (split s))
]

split-append : (r t : String) → HasNoComma r → split (r <> t) ≡ before r (split t)
unfolding split
split-append empty t h = ap split (nil-append t) ∙ sym (before-nil t)
split-append (c ∷∷ r) t h =
    ap split (cons-append c r t)
    ∙ rw h.0 (ap (put_first c) (split-append r t h.1) ∙ put_first-before c r (split t))

split-comma : (t : String) → split ("," <> t) ≡ "" ∷ split t
unfolding split
split-comma t = ap split (cons-append (char 44 tt) "" t) ∙ ap (λ x. "" ∷ split x) (nil-append t)

before-empty : (r : String) → before r (split "") ≡ r ∷ []
unfolding split
before-empty r = ap (λ x. x ∷ []) (append-nil r)

-- The text of one role and more comes apart into these roles.
split-join :
    (r : String) (rs : List String) → All HasNoComma (r ∷ rs) → split (join (r ∷ rs)) ≡ r ∷ rs
unfolding join
split-join r [] h = ap split (sym (append-nil r)) ∙ (split-append r "" h.0 ∙ before-empty r)
split-join r (q ∷ rs) h =
    split-append r ("," <> join (q ∷ rs)) h.0
    ∙ (ap (before r) (split-comma (join (q ∷ rs)))
        ∙ (ap (λ x. x ∷ split (join (q ∷ rs))) (append-nil r)
            ∙ ap (λ xs. r ∷ xs) (split-join q rs h.1)))

kept : (rs : List String) → All IsClean rs → keep nonempty (map trim rs) ≡ rs
kept [] h = refl
kept (r ∷ rs) h =
    ap (λ x. keep nonempty (x ∷ map trim rs)) h.0.trimmed ∙ ground (arith, h.0.named, kept rs h.1)

no_commas : (rs : List String) → All IsClean rs → All HasNoComma rs
no_commas [] h = tt
no_commas (r ∷ rs) h = (h.0.no_comma, no_commas rs h.1)

-- Roles that are joined for the form and parsed again are the same roles.
pub parse_roles-join : (rs : List String) → All IsClean rs → parse_roles (join rs) ≡ rs
unfolding parse_roles split join
parse_roles-join [] h = refl
parse_roles-join (r ∷ rs) h =
    ap (λ xs. keep nonempty (map trim xs)) (split-join r rs (no_commas (r ∷ rs) h))
    ∙ kept (r ∷ rs) h

-- The roles of a group, in the mapping that the server is sent.
abbrev pub roles_for : String → Mappings → Option (List String)
roles_for group [] = none
roles_for group ((k, rs) ∷ ms) = if k == group then some rs else roles_for group ms

-- The last entry of a group, or what stands in for it where there is none.
abbrev pub last_for : String → Mappings → Option (List String) → Option (List String)
last_for group [] o = o
last_for group ((k, rs) ∷ ms) o = last_for group ms (if k == group then some rs else o)

roles_for-assign :
    (group key : String) (rs : List String) (ms : Mappings)
    → roles_for group (assign key rs ms) ≡ (if key == group then some rs else roles_for group ms)
unfolding assign
roles_for-assign group key rs [] = refl
roles_for-assign group key rs ((k, qs) ∷ ms) =
    ground (arith, eq_iff k key, eq_iff k group, eq_iff key group, roles_for-assign group key rs ms)

roles_for-collect :
    (group : String) (ms acc : Mappings)
    → All (λ m. All IsClean m.1) ms
    → roles_for group (collect (rows_of ms) acc) ≡ last_for group ms (roles_for group acc)
unfolding collect rows_of
roles_for-collect group [] acc h = refl
roles_for-collect group ((k, rs) ∷ ms) acc h =
    ap (λ x. roles_for group (collect (rows_of ms) (assign k x acc))) (parse_roles-join rs h.0)
    ∙ (roles_for-collect group ms (assign k rs acc) h.1
        ∙ ap (last_for group ms) (roles_for-assign group k rs acc))

-- Every group has a name and at least one role.
abbrev pub is_complete : Mappings → Bool
is_complete [] = true
is_complete ((group, []) ∷ ms) = false
is_complete ((group, r ∷ rs) ∷ ms) = nonempty group && is_complete ms

nonempty-cons : (c : Char) (s : String) → nonempty (c ∷∷ s) ≡ true
nonempty-cons c s = elim (Bool-cases (c ∷∷ s == "")) [
  | inl e ↦ absurd (cons-ne-nil c s ((eq_iff (c ∷∷ s) "").0 e))
  | inr e ↦ rw e refl
]

nonempty-join :
    (r : String) (rs : List String) → nonempty r ≡ true → nonempty (join (r ∷ rs)) ≡ true
unfolding join
nonempty-join r [] h = h
nonempty-join empty (q ∷ rs) h = cc
nonempty-join (c ∷∷ r) (q ∷ rs) h =
    ap nonempty (cons-append c r ("," <> join (q ∷ rs)))
    ∙ nonempty-cons c (r <> ("," <> join (q ∷ rs)))

are_rows_valid-rows_of :
    (ms : Mappings) → All (λ m. All IsClean m.1) ms → are_rows_valid (rows_of ms) ≡ is_complete ms
unfolding are_rows_valid rows_of join
are_rows_valid-rows_of [] h = refl
are_rows_valid-rows_of ((group, []) ∷ ms) h = ground arith
are_rows_valid-rows_of ((group, r ∷ rs) ∷ ms) h =
    ground (arith, nonempty-join r rs h.0.0.named, are_rows_valid-rows_of ms h.1)

-- A role mapping whose roles are not empty and have no comma and no space at their ends, shown in
-- the form and saved as it is, where the other inputs are valid: if every group has a name and a role,
-- what is sent has for every group the roles of its last entry in the mapping, and none where it has
-- no entry; and if a group has no name or no role, nothing is sent.
pub submit_rows-rows_of :
    (group : String) (ms : Mappings)
    → All (λ m. All IsClean m.1) ms
    → (is_complete ms ≡ true
        → (sent : Mappings) × (submit_rows (rows_of ms) ≡ some sent)
          × (roles_for group sent ≡ last_for group ms none))
      × (is_complete ms ≡ false → submit_rows (rows_of ms) ≡ none)
unfolding submit_rows payload
submit_rows-rows_of group ms h = (
  λ e. (
    collect (rows_of ms) [],
    rw (are_rows_valid-rows_of ms h, e) refl,
    roles_for-collect group ms [] h,
  ),
  λ e. rw (are_rows_valid-rows_of ms h, e) refl,
)
