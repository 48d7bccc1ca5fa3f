-- ===== src/Queries/Params.antt =====
-- The parameters of a page of tickets.
use helpdesk_go.Base.{
  ◌≡◌, refl, Bool, true, false, String, ◌==◌, Option, none, some, List, [], ◌∷◌, ◌++◌, arith,
  eq_iff, truthy, ◌&&◌, if◌then◌else◌,
}
use helpdesk_go.Api.Requester.{drop_key, set_param, page_params}

-- `URLSearchParams.get`, on the server's side: the first value of a key.
abbrev pub param : String → List (String × String) → Option String
param key [] = none
param key ((k, v) ∷ rest) = if k == key then some v else param key rest

-- How many entries a key has.
abbrev pub has_more : String → List (String × String) → Bool
has_more key [] = false
has_more key ((k, v) ∷ rest) = if k == key then true else has_more key rest

-- `if (value) params.append(key, value)`
abbrev pub given : String → Option String → List (String × String)
given key none = []
given key (some v) = if v == "" then [] else (key, v) ∷ []

pub param-given :
    (key k : String) (o : Option String) (rest : List (String × String))
    → param key (given k o ++ rest) ≡ (if truthy o && k == key then o else param key rest)
param-given key k none rest = refl
param-given key k (some v) rest = ground (arith, eq_iff k key, eq_iff v "")

param-drop_key :
    (key other : String) (ps : List (String × String))
    → param other (drop_key key ps) ≡ (if key == other then none else param other ps)
param-drop_key key other [] = ground arith
param-drop_key key other ((k, v) ∷ ps) =
    ground (arith, eq_iff k key, eq_iff k other, eq_iff key other, param-drop_key key other ps)

pub param-set_param :
    (key other v : String) (ps : List (String × String))
    → param other (set_param key v ps) ≡ (if key == other then some v else param other ps)
param-set_param key other v [] = refl
param-set_param key other v ((k, u) ∷ ps) = ground (
  arith,
  eq_iff k key,
  eq_iff k other,
  eq_iff key other,
  param-drop_key key other ps,
  param-set_param key other v ps,
)

-- The server sees the cursor exactly when there is one that is not empty, in place of any `cursor`
-- among the filters, and every other filter as it was given.
pub param-page_params :
    (cursor : Option String) (other : String) (filters : List (String × String))
    → param other (page_params cursor filters)
      ≡ (if truthy cursor && "cursor" == other then cursor else param other filters)
param-page_params none other filters = refl
param-page_params (some c) other filters = ground (arith, param-set_param "cursor" other c filters)
