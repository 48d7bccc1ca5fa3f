-- ===== src/Oidc.antt =====
-- The role mapping of the OIDC settings, web/internal/src/components/admin/OIDCSettings.tsx: the
-- rows that the form shows for it, and the mapping that the form's rows are saved as.
pub mod Mapping
pub mod Fields
use Prim.Native.Char.{Char, code}
use Prim.Native.String.{[] as empty, ◌∷◌ as ◌∷∷◌}
use helpdesk_go.Base.{
  ℕ, Bool, true, false, ◌&&◌, ◌||◌, eqb, leb, String, ◌==◌, ◌<>◌, nonempty, Option, none, some,
  List, [], ◌∷◌, map, keep, if◌then◌else◌,
}

-- `Record<string, string[]>`, with its keys in the order of their first assignment.
abbrev pub Mappings : Type 0
Mappings = List (String × List String)

-- A row of the form.
pub record Row : Type 0 where
  pub value : String
  pub roles : String

abbrev pub is_comma : Char → Bool
is_comma c = eqb (code c) 44

-- The white space and line ends that `trim` takes away.
abbrev pub is_space : Char → Bool
is_space c =
    let n = code c in
    leb 9 n && leb n 13
    || eqb n 32
    || eqb n 160
    || eqb n 5760
    || leb 8192 n && leb n 8202
    || eqb n 8232
    || eqb n 8233
    || eqb n 8239
    || eqb n 8287
    || eqb n 12288
    || eqb n 65279

abbrev pub put_first : Char → List String → List String
put_first c [] = (c ∷∷ "") ∷ []
put_first c (s ∷ ss) = (c ∷∷ s) ∷ ss

-- `s.split(',')`
unfoldable pub split : String → List String
split empty = "" ∷ []
split (c ∷∷ s) = let rest = split s in if is_comma c then "" ∷ rest else put_first c rest

unfoldable pub trim_left : String → String
trim_left empty = ""
trim_left (c ∷∷ s) = let rest = trim_left s in if is_space c then rest else c ∷∷ s

unfoldable pub trim_right : String → String
trim_right empty = ""
trim_right (c ∷∷ s) = let rest = trim_right s in if is_space c && rest == "" then "" else c ∷∷ rest

-- `s.trim()`
unfoldable pub trim : String → String
unfolding trim_left trim_right
trim s = trim_right (trim_left s)

-- `roles.join(',')`
pub join : List String → String
join [] = ""
join (r ∷ []) = r
join (r ∷ q ∷ rs) = r <> ("," <> join (q ∷ rs))

-- The rows that the effect puts into the form.
unfoldable pub rows_of : Mappings → List Row
unfolding join
rows_of ms = map (λ m. record { value = m.0; roles = join m.1 }) ms

unfoldable pub parse_roles : String → List String
unfolding split trim
parse_roles s = keep nonempty (map trim (split s))

-- `mappings[key] = roles`
pub assign : String → List String → Mappings → Mappings
assign key roles [] = (key, roles) ∷ []
assign key roles ((k, rs) ∷ ms) =
    let rest = assign key roles ms in if k == key then (key, roles) ∷ ms else (k, rs) ∷ rest

-- The `forEach` of `onFinish`.
pub collect : List Row → Mappings → Mappings
unfolding assign parse_roles
collect [] ms = ms
collect (r ∷ rs) ms = collect rs (assign r.value (parse_roles r.roles) ms)

unfoldable pub payload : List Row → Mappings
unfolding collect
payload rows = collect rows []

-- The rules of a row's inputs: both are given.
abbrev pub is_row_valid : Row → Bool
is_row_valid r = nonempty r.value && nonempty r.roles

unfoldable pub are_rows_valid : List Row → Bool
are_rows_valid [] = true
are_rows_valid (r ∷ rows) = is_row_valid r && are_rows_valid rows

-- `Save`, where the inputs beside the rows are valid: the form calls `onFinish` only where the rows
-- are valid too. `none` is a form that sends nothing.
unfoldable pub submit_rows : List Row → Option Mappings
unfolding are_rows_valid payload
submit_rows rows = if are_rows_valid rows then some (payload rows) else none
