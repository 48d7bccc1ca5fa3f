-- ===== src/Assets/Checkout/Laws.antt =====
-- What the page of checkouts checks in.
use helpdesk_go.Base.{◌≡◌, Bool, true, false, String, Option, none, some, All}
use helpdesk_go.Assets.Checkout.{
  Checkout, Job, check_out, check_in, can_check_in, System, Event, opens_checkin,
}

-- The rows whose button is clicked.
abbrev pub OpensOnly : (Checkout → Type 0) → Event → Type 0
OpensOnly P (opens_checkin c) = P c
OpensOnly P _ = Unit

-- A row that was shown with the button, one of those that were clicked.
abbrev pub IsRow : (Checkout → Type 0) → Checkout → Type 0
IsRow P c = P c × (can_check_in c ≡ true)

-- The dialog of a check-in is open exactly while a checkout is selected.
abbrev pub IsSelected : (Checkout → Type 0) → Bool → Option Checkout → Type 0
IsSelected P visible none = visible ≡ false
IsSelected P visible (some c) = (visible ≡ true) × IsRow P c

abbrev pub IsOpen : (Checkout → Type 0) → Job → Type 0
IsOpen P (check_out d) = Unit
IsOpen P (check_in c d) = IsRow P c

pub record Inv (P : Checkout → Type 0) (s : System) : Type 0 where
  pub shown : IsSelected P s.page.checkin_visible s.page.selected
  pub checkins : All (IsOpen P) s.sent

module _ (P : Checkout → Type 0) (format : String → String) where
  abbrev IsOpenJob : Option Job → Type 0
  IsOpenJob none = Unit
  IsOpenJob (some j) = IsOpen P j
