-- ===== src/Assets/Checkout/Cells.antt =====
-- The cells of the table of checkouts in web/internal/src/components/assets/AssetCheckout.tsx.
use helpdesk_go.Base.{String, ◌==◌, ◌<>◌, Option, none, some, List, [], ◌∷◌, if◌then◌else◌}
use helpdesk_go.Assets.Checkout.{Checkout, checked_out, overdue, returned}

-- `getStatusTag`: the colour and the text of a tag.
unfoldable pub status_tag : Checkout → String × String
status_tag c = elim c.status [
  | checked_out ↦ ("blue", "Checked Out")
  | overdue ↦ ("red", "Overdue")
  | returned ↦ ("green", "Returned")
]

-- `getConditionColor`
unfoldable pub condition_color : String → String
condition_color c =
    if c == "excellent"
    then "green"
    else if c == "good"
    then "blue"
    else if c == "fair"
    then "orange"
    else if c == "poor"
    then "red"
    else if c == "broken"
    then "volcano"
    else "default"

-- The tags of the column "Condition"; there is none for the return before it.
unfoldable pub condition_tags : String → Option String → List (String × String)
unfolding condition_color
condition_tags out none = (condition_color out, "Out: " <> out) ∷ []
condition_tags out (some back) =
    if back == ""
    then (condition_color out, "Out: " <> out) ∷ []
    else (condition_color out, "Out: " <> out) ∷ (condition_color back, "In: " <> back) ∷ []

-- The cell "Expected Return"; `day` is the date library's format.
unfoldable pub expected_return : (String → String) → Option String → String
expected_return day none = "-"
expected_return day (some d) = if d == "" then "-" else day d
