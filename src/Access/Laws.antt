-- ===== src/Access/Laws.antt =====
-- The guards let through exactly whom they should.
use helpdesk_go.Base.{
  ◌≡◌, refl, ◌↔◌, ◌⊎◌, true, String, Option, none, some, List, [], ◌∷◌, arith, includes, any,
}
use helpdesk_go.Access.{Me, loaded, outlet, roles_or_empty}
use helpdesk_go.Access.Routes.{Guard, unguarded, role, any_role, pass_guard}

-- A user holds a role.
abbrev pub Holds : Me → String → Type 0
Holds me r = includes (roles_or_empty me.roles) r ≡ true

-- Some role of the list is held.
abbrev pub HoldsAny : Me → List String → Type 0
HoldsAny me [] = ⊥
HoldsAny me (r ∷ rs) = Holds me r ⊎ HoldsAny me rs

any-HoldsAny :
    (me : Me) (rs : List String)
    → (any (includes (roles_or_empty me.roles)) rs ≡ true) ↔ HoldsAny me rs
any-HoldsAny me [] = (λ h. cc, λ h. absurd h)
any-HoldsAny me (r ∷ rs) =
    let ih = any-HoldsAny me rs in (λ h. ground (arith, ih), λ h. ground (arith, ih))

-- What a guard asks of the user.
abbrev pub Allows : Guard → Option Me → Type 0
Allows unguarded me = Unit
Allows (role r) none = ⊥
Allows (role r) (some me) = Holds me "admin" ⊎ Holds me r
Allows (any_role rs) none = ⊥
Allows (any_role rs) (some me) = Holds me "admin" ⊎ HoldsAny me rs

-- Once the user is known, a guard shows the page exactly to an administrator and to those who hold
-- the role or one of the roles that it names, and to nobody who is not signed in.
pub pass_guard-Allows :
    (g : Guard) (me : Option Me) → (pass_guard g (loaded me) ≡ outlet) ↔ Allows g me
unfolding pass_guard
pass_guard-Allows unguarded me = (λ h. tt, λ h. refl)
pass_guard-Allows (role r) none = (λ h. cc, λ h. absurd h)
pass_guard-Allows (role r) (some me) = (λ h. ground arith, λ h. ground arith)
pass_guard-Allows (any_role rs) none = (λ h. cc, λ h. absurd h)
pass_guard-Allows (any_role rs) (some me) =
    let any_iff = any-HoldsAny me rs in (λ h. ground (arith, any_iff), λ h. ground (arith, any_iff))
