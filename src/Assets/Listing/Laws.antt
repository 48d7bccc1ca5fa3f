-- ===== src/Assets/Listing/Laws.antt =====
-- What the server sees of the filters.
use mathlib.Core.List.{append-nil}
use helpdesk_go.Base.{
  ◌≡◌, refl, ◌∙◌, Bool, true, false, String, ◌==◌, eq_iff, Option, none, some, truthy, nonempty,
  List, [], ◌∷◌, ◌++◌, arith, map, if◌then◌else◌, ap, ◌&&◌,
}
use helpdesk_go.Http.Convert.{decimal}
use helpdesk_go.Queries.Params.{param, given, param-given}
use helpdesk_go.Assets.Listing.{Listing, Filters, list_params, range_params, audit_params}

-- `URLSearchParams.getAll`, on the server's side: every value of a key.
abbrev pub all_params : String → List (String × String) → List String
all_params key [] = []
all_params key ((k, v) ∷ rest) = if k == key then v ∷ all_params key rest else all_params key rest

all_params-statuses :
    (statuses : List String) (rest : List (String × String))
    → all_params "status" (map (λ s. ("status", s)) statuses ++ rest)
      ≡ statuses ++ all_params "status" rest
all_params-statuses [] rest = refl
all_params-statuses (s ∷ ss) rest = ap (λ xs. s ∷ xs) (all_params-statuses ss rest)

param-statuses :
    (key : String) (statuses : List String) (rest : List (String × String))
    → "status" == key ≡ false
    → param key (map (λ s. ("status", s)) statuses ++ rest) ≡ param key rest
param-statuses key [] rest h = refl
param-statuses key (s ∷ ss) rest h = ground (arith, param-statuses key ss rest h)

all_params-given :
    (o : Option String) (rest : List (String × String))
    → all_params "status" (given "q" o ++ rest) ≡ all_params "status" rest
all_params-given none rest = refl
all_params-given (some v) rest = ground (arith, eq_iff v "")

abbrev is_range : Option (String × String) → Bool
is_range none = false
is_range (some r) = true

param-last :
    (key k : String) (o : Option String)
    → param key (given k o) ≡ (if truthy o && k == key then o else none)
param-last key k none = refl
param-last key k (some v) = ground (arith, eq_iff k key, eq_iff v "")

abbrev else_of : Bool → Option String → Option String → Option String
else_of b o p = if b then o else p

abbrev pub if_given : Option String → Option String
if_given o = if truthy o then o else none

-- The server sees every status that is chosen, in the order of the choice, the page and its size,
-- and the search exactly when it is not empty.
pub list_params-seen :
    (l : Listing)
    → (all_params "status" (list_params l) ≡ l.status_filter)
      × (param "q" (list_params l) ≡ (if nonempty l.search then some l.search else none))
      × (param "page" (list_params l) ≡ some (decimal l.page))
      × (param "limit" (list_params l) ≡ some (decimal l.page_size))
unfolding list_params
list_params-seen l =
    let tail : List (String × String) =
      ("page", decimal l.page) ∷ ("limit", decimal l.page_size) ∷ [] in
    let statuses : List (String × String) = map (λ s. ("status", s)) l.status_filter ++ tail in
    (
      all_params-given (some l.search) statuses
          ∙ (all_params-statuses l.status_filter tail ∙ append-nil l.status_filter),
      param-given "q" "q" (some l.search) statuses
          ∙ ground (arith, eq_iff l.search "", param-statuses "q" l.status_filter tail refl),
      param-given "page" "q" (some l.search) statuses
          ∙ ground (arith, eq_iff l.search "", param-statuses "page" l.status_filter tail refl),
      param-given "limit" "q" (some l.search) statuses
          ∙ ground (arith, eq_iff l.search "", param-statuses "limit" l.status_filter tail refl),
    )

abbrev pub starts : Option (String × String) → Option String
starts none = none
starts (some (from, to)) = some from

abbrev pub ends : Option (String × String) → Option String
ends none = none
ends (some (from, to)) = some to

param-range :
    (key : String) (r : Option (String × String)) (rest : List (String × String))
    → param key (range_params r ++ rest) ≡ (
        if "start_date" == key && is_range r
        then starts r
        else if "end_date" == key && is_range r
        then ends r
        else param key rest)
param-range key none rest = ground (arith, eq_iff "start_date" key, eq_iff "end_date" key)
param-range key (some (from, to)) rest =
    ground (arith, eq_iff "start_date" key, eq_iff "end_date" key)

-- Of the parameters of the audit page, what the server sees of the four that come first, and of the
-- rest.
audit_lem :
    (key : String) (f : Filters)
    → param key (audit_params f) ≡ (
        if truthy f.asset_id && "asset_id" == key
        then f.asset_id
        else if truthy f.user_id && "user_id" == key
        then f.user_id
        else if truthy f.action && "action" == key
        then f.action
        else if "start_date" == key && is_range f.date_range
        then starts f.date_range
        else if "end_date" == key && is_range f.date_range
        then ends f.date_range
        else if truthy (some f.search) && "search" == key
        then some f.search
        else none)
unfolding audit_params
audit_lem key f =
    let tail : List (String × String) = given "search" (some f.search) in
    let range : List (String × String) = range_params f.date_range ++ tail in
    let action : List (String × String) = given "action" f.action ++ range in
    param-given key "asset_id" f.asset_id (given "user_id" f.user_id ++ action)
    ∙ ap (else_of (truthy f.asset_id && "asset_id" == key) f.asset_id) (
        param-given key "user_id" f.user_id action
        ∙ ap (else_of (truthy f.user_id && "user_id" == key) f.user_id) (
            param-given key "action" f.action range
            ∙ ap (else_of (truthy f.action && "action" == key) f.action) (
                param-range key f.date_range tail
                ∙ ap
                    (λ o.
                      else_of ("start_date" == key && is_range f.date_range) (starts f.date_range) (
                        else_of ("end_date" == key && is_range f.date_range) (ends f.date_range) o))
                    (param-last key "search" (some f.search)))))

-- The server sees of the audit page's filters exactly those that are set to a text that is not
-- empty, and both ends of a range of dates.
pub audit_params-seen :
    (f : Filters)
    → (param "asset_id" (audit_params f) ≡ if_given f.asset_id)
      × (param "user_id" (audit_params f) ≡ if_given f.user_id)
      × (param "action" (audit_params f) ≡ if_given f.action)
      × (param "start_date" (audit_params f) ≡ starts f.date_range)
      × (param "end_date" (audit_params f) ≡ ends f.date_range)
      × (param "search" (audit_params f) ≡ if_given (some f.search))
audit_params-seen f = (
  audit_lem "asset_id" f ∙ ground arith,
  audit_lem "user_id" f ∙ ground arith,
  audit_lem "action" f ∙ ground arith,
  audit_lem "start_date" f ∙ ground arith,
  audit_lem "end_date" f ∙ ground arith,
  audit_lem "search" f ∙ ground arith,
)
