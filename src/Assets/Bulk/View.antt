-- ===== src/Assets/Bulk/View.antt =====
-- What the page of bulk operations shows, web/internal/src/components/assets/BulkOperations.tsx: the
-- progress of an import, the button and the title of the dialog, and the choices of its form.
use helpdesk_go.Base.{
  ℕ, zero, suc, ◌+◌, ◌-◌, ltb, eqb, ◌≡◌, arith, Bool, String, ◌<>◌, Option, none, some, List, [],
  ◌∷◌, map, take, length, length-map, if◌then◌else◌,
}
use helpdesk_go.Http.Convert.{decimal}
use helpdesk_go.Assets.Bulk.{Bulk, ImportProgress}

-- An alert: its message, the lines below, and the number of entries that have no line, where it is shown.
pub record Notice : Type 0 where
  pub heading : String
  pub lines : List String
  pub more : Option ℕ

abbrev pub row_line : ℕ × String → String
row_line e = "Row " <> (decimal e.0 <> (": " <> e.1))

abbrev pub rest_beyond : {A : Type 0} → ℕ → List A → Option ℕ
rest_beyond n xs = if ltb n (length xs) then some (length xs - n) else none

-- An alert with at most `n` lines; there is none for no entry.
abbrev pub notice : ℕ → String → List (ℕ × String) → Option Notice
notice n word entries =
    if ltb 0 (length entries)
    then some (record {
      heading = decimal (length entries) <> word;
      lines = map row_line (take n entries);
      more = rest_beyond n entries;
    })
    else none

unfoldable pub error_notice : ImportProgress → Option Notice
error_notice p = notice 5 " errors occurred" p.errors

unfoldable pub warning_notice : ImportProgress → Option Notice
warning_notice p = notice 3 " warnings" p.warnings

-- The bar's status, and the line below it.
unfoldable pub progress_status : ImportProgress → String
progress_status p = if ltb 0 (length p.errors) then "exception" else "success"

unfoldable pub processed_line : ImportProgress → String
unfolding decimal
processed_line p = "Processed: " <> (decimal p.processed <> ("/" <> decimal p.total))

-- The button that opens the dialog: whether it is disabled, and its text.
unfoldable pub update_button : Bulk → Bool × String
unfolding decimal
update_button b = (
  eqb (length b.selected_assets) 0,
  "Update Selected (" <> (decimal (length b.selected_assets) <> ")"),
)

unfoldable pub modal_title : Bulk → String
unfolding decimal
modal_title b = "Update " <> (decimal (length b.selected_assets) <> " Selected Assets")

-- The columns of the table, by title and field.
abbrev pub bulk_columns : List (String × String)
bulk_columns =
    ("Asset Tag", "asset_tag")
    ∷ ("Name", "name")
    ∷ ("Status", "status")
    ∷ ("Condition", "condition")
    ∷ ("Location", "location")
    ∷ []

-- The choices of the form's two fixed lists: the value and the text.
abbrev pub status_options : List (String × String)
status_options =
    ("active", "Active")
    ∷ ("inactive", "Inactive")
    ∷ ("maintenance", "Maintenance")
    ∷ ("retired", "Retired")
    ∷ ("disposed", "Disposed")
    ∷ []

abbrev pub condition_options : List (String × String)
condition_options =
    ("excellent", "Excellent")
    ∷ ("good", "Good")
    ∷ ("fair", "Fair")
    ∷ ("poor", "Poor")
    ∷ ("broken", "Broken")
    ∷ []

abbrev pub or_zero : Option ℕ → ℕ
or_zero none = 0
or_zero (some n) = n

length-take-drop :
    {A : Type 0} (n : ℕ) (xs : List A) → length (take n xs) + (length xs - n) ≡ length xs
length-take-drop zero xs = omega arith
length-take-drop (suc n) [] = omega arith
length-take-drop (suc n) (x ∷ xs) = omega (arith, length-take-drop n xs)

length-take-rest_beyond :
    {A : Type 0} (n : ℕ) (xs : List A) → length (take n xs) + or_zero (rest_beyond n xs) ≡ length xs
length-take-rest_beyond n xs = ground (arith, length-take-drop n xs)

-- An alert that is shown accounts for every entry: those with a line and those that are counted in
-- the last line are all.
notice-length :
    (n : ℕ) (word : String) (entries : List (ℕ × String)) (m : Notice)
    → notice n word entries ≡ some m
    → length m.lines + or_zero m.more ≡ length entries
notice-length n word entries m h =
    ground (arith, length-take-rest_beyond n entries, length-map (take n entries) row_line)
