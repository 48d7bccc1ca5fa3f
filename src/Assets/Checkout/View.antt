-- ===== src/Assets/Checkout/View.antt =====
-- What the page of the checkouts shows, web/internal/src/components/assets/AssetCheckout.tsx: a row of
-- its table, the choices and rules of its two forms, and the summary in the dialog of a check-in.
use helpdesk_go.Base.{String, ◌<>◌, Bool, Option, none, some, List, [], ◌∷◌, map}
use helpdesk_go.Assets.Checkout.{Checkout, can_check_in}
use helpdesk_go.Assets.Checkout.Cells.{status_tag, condition_tags, expected_return}

-- A checkout with the fields of all columns.
pub record Listed : Type 0 where
  pub checkout : Checkout
  pub asset_tag : String
  pub checked_out_to : String
  pub checkout_date : String
  pub expected_return_date : Option String
  pub condition_out : String
  pub condition_in : Option String

-- A row: the cells in the order of the columns, and whether it has the button "Check In".
pub record Row : Type 0 where
  pub asset : String × String
  pub holder : String
  pub since : String
  pub back_by : String
  pub status : String × String
  pub conditions : List (String × String)
  pub check_in_shown : Bool

-- `day` is the date library's format.
module _ (day : String → String) where
  unfoldable pub row : Listed → Row
  unfolding status_tag condition_tags expected_return
  row l = record {
    asset = (l.checkout.asset_name, l.asset_tag);
    holder = l.checked_out_to;
    since = day l.checkout_date;
    back_by = expected_return day l.expected_return_date;
    status = status_tag l.checkout;
    conditions = condition_tags l.condition_out l.condition_in;
    check_in_shown = can_check_in l.checkout;
  }

  -- The dialog of a check-in: its title, and its summary by labels. Without a checkout the texts are
  -- those of `undefined`.
  unfoldable pub checkin_title : Option Listed → String
  checkin_title none = "Check In Asset: undefined"
  checkin_title (some l) = "Check In Asset: " <> l.checkout.asset_name

  unfoldable pub checkin_summary : Option Listed → List (String × String)
  checkin_summary none =
      ("Asset:", "")
      ∷ ("Checked out to:", "")
      ∷ ("Checkout date:", "")
      ∷ ("Condition when checked out:", "")
      ∷ []
  checkin_summary (some l) =
      ("Asset:", l.checkout.asset_name)
      ∷ ("Checked out to:", l.checked_out_to)
      ∷ ("Checkout date:", day l.checkout_date)
      ∷ ("Condition when checked out:", l.condition_out)
      ∷ []

-- The choice of an asset: for each its value and its text.
unfoldable pub available_options :
    Option (List (String × (String × String))) → List (String × String)
available_options none = []
available_options (some assets) = map (λ a. (a.0, a.1.0 <> (" (" <> (a.1.1 <> ")")))) assets

-- The items of the two forms: name, label, and the message of the rule for those that are required.
unfoldable pub checkout_items : List (String × (String × Option String))
checkout_items =
    ("asset_id", ("Asset", some "Please select an asset"))
    ∷ ("checked_out_to", ("Checked Out To", some "Please enter who the asset is checked out to"))
    ∷ ("expected_return_date", ("Expected Return Date", none))
    ∷ ("condition_out", ("Condition When Checking Out", some "Please select the asset condition"))
    ∷ ("notes", ("Checkout Notes", none))
    ∷ []

unfoldable pub checkin_items : List (String × (String × Option String))
checkin_items =
    ("condition_in", ("Condition When Returning", some "Please select the asset condition"))
    ∷ ("return_notes", ("Return Notes", none))
    ∷ []
