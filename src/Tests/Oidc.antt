-- ===== src/Tests/Oidc.antt =====
-- A role mapping that goes through the form and back.
use helpdesk_go.Base.{◌≡◌, refl, arith, [], ◌∷◌, some, none, false, true}
use helpdesk_go.Oidc.{Mappings, trim, rows_of, parse_roles, submit_rows, split}
use helpdesk_go.Oidc.Mapping.{IsClean, roles_for, last_for, is_complete, submit_rows-rows_of}

abbrev mappings : Mappings
mappings = ("Support", "agent" ∷ "manager" ∷ []) ∷ ("Guests", "agent" ∷ []) ∷ []

spaces : parse_roles " agent, ,manager " ≡ "agent" ∷ "manager" ∷ []
unfolding parse_roles split trim
spaces = refl

agent-IsClean : IsClean "agent"
unfolding trim
agent-IsClean = record { no_comma = ground arith; trimmed = refl; named = refl }

manager-IsClean : IsClean "manager"
unfolding trim
manager-IsClean = record { no_comma = ground arith; trimmed = refl; named = refl }

submit_rows-rows_of_example :
    (is_complete mappings ≡ true
      → (sent : Mappings) × (submit_rows (rows_of mappings) ≡ some sent)
        × (roles_for "Support" sent ≡ last_for "Support" mappings none))
    × (is_complete mappings ≡ false → submit_rows (rows_of mappings) ≡ none)
submit_rows-rows_of_example =
    submit_rows-rows_of "Support" mappings
      ((agent-IsClean, (manager-IsClean, tt)), ((agent-IsClean, tt), tt))

mappings_complete : is_complete mappings ≡ true
mappings_complete = refl

-- A group without a role is shown with an empty text, which the form refuses.
no_role_refused : submit_rows (rows_of (("Guests", []) ∷ mappings)) ≡ none
unfolding submit_rows rows_of
no_role_refused = refl
