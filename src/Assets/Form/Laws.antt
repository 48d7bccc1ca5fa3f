-- ===== src/Assets/Form/Laws.antt =====
-- What the form of an asset saves, and how a save ends.
use helpdesk_go.Base.{String, ◌==◌, Option, none, some, List, [], ◌∷◌, if◌then◌else◌}
use helpdesk_go.Http.{Json, null, str}
use helpdesk_go.Assets.Form.{
  Asset, value_of, first_of, initial_values, date_of, date_json, populate, on_finish,
}

-- The value of a field after the merge.
abbrev pub merged_value : String → List (String × Json) → List (String × Json) → Option Json
merged_value name given current = first_of (value_of name given) (value_of name current)

-- A text, and `null` for none.
abbrev pub text_or_null : Option String → Json
text_or_null none = null
text_or_null (some s) = str s

abbrev pub unless_empty : String → Option String
unless_empty s = if s == "" then none else some s

-- The date that a date's text is sent as: what the library writes of it, if anything.
abbrev pub day_of :
    {Date : Type 0} → (String → Date) → (Date → String) → Option String → Option String
day_of dayjs format none = none
day_of dayjs format (some s) = if s == "" then none else unless_empty (format (dayjs s))

module _ {Date : Type 0} (dayjs : String → Date) (format : Date → String) where
  abbrev pub date_fields : Asset → List (String × Json)
  date_fields a =
      ("purchase_date", date_json dayjs format (date_of dayjs format a.purchase_date))
      ∷ ("warranty_expiry", date_json dayjs format (date_of dayjs format a.warranty_expiry))
      ∷ []

  -- The body that an asset which is opened and saved at once is sent with.
  abbrev pub resaved : Asset → List (String × Json)
  resaved a = on_finish dayjs format (populate dayjs format a (initial_values dayjs format))
