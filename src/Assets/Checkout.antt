-- ===== src/Assets/Checkout.antt =====
-- The page of checkouts, web/internal/src/components/assets/AssetCheckout.tsx.
pub mod Laws
pub mod Cells
pub mod View
use helpdesk_go.Base.{
  runs, oldest, without_oldest, nth, drop_nth, ℕ, Bool, true, false, not, String, ◌==◌, ◌<>◌,
  Option, none, some, List, [], ◌∷◌, truthy, if◌then◌else◌,
}
use helpdesk_go.Http.{Json, str, Request, patch, post}
use helpdesk_go.Api.Internal.{optional, text_json}
use helpdesk_go.Api.Generic.{object, with_data, no_options}

pub data Status : Type 0 where
  checked_out overdue returned : Status

pub record Checkout : Type 0 where
  pub id : String
  pub asset_name : String
  pub status : Status

pub record CheckoutData : Type 0 where
  pub asset_id : String
  pub checked_out_to : String
  pub expected_return_date : Option String
  pub condition_out : String
  pub notes : Option String

pub record CheckinData : Type 0 where
  pub condition_in : String
  pub return_notes : Option String

pub data Job : Type 0 where
  check_out : CheckoutData → Job
  check_in : Checkout → CheckinData → Job

unfoldable pub job_request : Job → Request
job_request (check_out d) =
    with_data post "/asset-checkouts"
      (some (
        object (
          ("asset_id", str d.asset_id)
          ∷ ("checked_out_to", str d.checked_out_to)
          ∷ optional "expected_return_date" (text_json d.expected_return_date)
              (("condition_out", str d.condition_out) ∷ optional "notes" (text_json d.notes) []))))
      no_options
job_request (check_in c d) =
    with_data patch ("/asset-checkouts/" <> (c.id <> "/checkin"))
      (some (
        object (
          ("condition_in", str d.condition_in)
          ∷ optional "return_notes" (text_json d.return_notes) [])))
      no_options

-- `dayjs(date).format('YYYY-MM-DD')` is the library's, and an argument.
abbrev format_date : (String → String) → Option String → Option String
format_date format none = none
format_date format (some d) = if d == "" then none else some (format d)

unfoldable pub handle_checkout : (String → String) → CheckoutData → Job
handle_checkout format d =
    check_out (record d { expected_return_date = format_date format d.expected_return_date })

pub record Page : Type 0 where
  pub checkout_visible : Bool
  pub checkin_visible : Bool
  pub selected : Option Checkout

unfoldable pub initial : Page
initial = record { checkout_visible = false; checkin_visible = false; selected = none }

-- `handleCheckin`: nothing is sent without a selected checkout.
abbrev pub checkin_of : CheckinData → Option Checkout → Option Job
checkin_of d none = none
checkin_of d (some c) = some (check_in c d)

unfoldable pub handle_checkin : CheckinData → Page → Option Job
handle_checkin d p = checkin_of d p.selected

unfoldable pub open_checkin_modal : Checkout → Page → Page
open_checkin_modal c p = record p { selected = some c; checkin_visible = true }

unfoldable pub cancel_checkin : Page → Page
cancel_checkin p = record p { checkin_visible = false; selected = none }

unfoldable pub checkout_success : Page → Page
checkout_success p = record p { checkout_visible = false }

unfoldable pub checkin_success : Page → Page
checkin_success p = record p { checkin_visible = false; selected = none }

-- The row's button is there for what has not been returned.
abbrev pub can_check_in : Checkout → Bool
can_check_in c = elim c.status [ returned ↦ false | _ ↦ true ]

pub record System : Type 0 where
  pub page : Page
  pub pending : List Job
  pub sent : List Job

abbrev pub send : Option Job → System → System
send none s = s
send (some j) s = record s { pending = j ∷ s.pending; sent = j ∷ s.sent }

pub data Event : Type 0 where
  opens_checkout cancels_checkout : Event
  submits_checkout : CheckoutData → Event
  opens_checkin : Checkout → Event
  cancels_checkin : Event
  submits_checkin : CheckinData → Event
  answered : Bool → Event

abbrev pub settle : Option Job → Bool → Page → Page
settle (some (check_out d)) true p = checkout_success p
settle (some (check_in c d)) true p = checkin_success p
settle (some j) false p = p
settle none good p = p

unfoldable pub step : (String → String) → System → Event → System
unfolding handle_checkout handle_checkin open_checkin_modal cancel_checkin checkout_success
    checkin_success oldest without_oldest
step format s opens_checkout = record s { page = record s.page { checkout_visible = true } }
step format s cancels_checkout = record s { page = record s.page { checkout_visible = false } }
step format s (submits_checkout d) = send (some (handle_checkout format d)) s
step format s (opens_checkin c) =
    if can_check_in c then record s { page = open_checkin_modal c s.page } else s
step format s cancels_checkin = record s { page = cancel_checkin s.page }
step format s (submits_checkin d) = send (handle_checkin d s.page) s
step format s (answered good) = record s {
  page = settle (oldest s.pending) good s.page;
  pending = without_oldest s.pending;
}

unfoldable pub start : System
unfolding initial
start = record { page = initial; pending = []; sent = [] }

abbrev pub run : (String → String) → System → List Event → System
run format = runs (step format)
