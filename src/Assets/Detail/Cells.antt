-- ===== src/Assets/Detail/Cells.antt =====
-- The texts that the page of an asset shows.
use Prim.Native.String.{count}
use text.Mathlib.TextLemmas.{length-append}
use helpdesk_go.Base.{
  literal, or_text-ne, ℕ, ◌+◌, ◌≡◌, ◌≢◌, refl, ap, arith, String, ◌<>◌, Option, none, some, All,
}
use helpdesk_go.Http.Convert.{decimal}
use helpdesk_go.Assets.Detail.{
  Asset, AssignedUser, assigned_to, rate_text, status_label, condition_label, Status, Condition,
  active, inactive, maintenance, retired, disposed, excellent, good, fair, poor, broken, details,
  format_currency, format_date,
}

count-append-percent : (s : String) → count (s <> "%") ≡ count s + 1
count-append-percent s = length-append s "%"

append-ne : (s : String) → s <> "%" ≢ ""
append-ne s = λ h. omega (arith, count-append-percent s, ap count h)

rate_text-ne : (o : Option ℕ) → rate_text o ≢ ""
rate_text-ne none = literal "-" refl
rate_text-ne (some n) = ground (arith, literal "-" refl, append-ne (decimal n))

status_label-ne : (s : Status) → status_label s ≢ ""
status_label-ne active = literal "ACTIVE" refl
status_label-ne inactive = literal "INACTIVE" refl
status_label-ne maintenance = literal "MAINTENANCE" refl
status_label-ne retired = literal "RETIRED" refl
status_label-ne disposed = literal "DISPOSED" refl

condition_label-ne : (o : Option Condition) → condition_label o ≢ ""
condition_label-ne none = literal "-" refl
condition_label-ne (some excellent) = literal "EXCELLENT" refl
condition_label-ne (some good) = literal "GOOD" refl
condition_label-ne (some fair) = literal "FAIR" refl
condition_label-ne (some poor) = literal "POOR" refl
condition_label-ne (some broken) = literal "BROKEN" refl

-- A user who is assigned has an email address.
abbrev pub HasEmail : Option AssignedUser → Type 0
HasEmail none = Unit
HasEmail (some u) = u.email ≢ ""

assigned_to-ne : (o : Option AssignedUser) → HasEmail o → assigned_to o ≢ ""
assigned_to-ne none h = literal "-" refl
assigned_to-ne (some u) h = or_text-ne u.display_name u.email h

module _ (usd : ℕ → String) (day : String → String) (usd-ne : (n : ℕ) → usd n ≢ "")
    (day-ne : (s : String) → day s ≢ "") where
  format_currency-ne : (o : Option ℕ) → format_currency usd day o ≢ ""
  unfolding format_currency
  format_currency-ne none = literal "-" refl
  format_currency-ne (some n) = ground (arith, literal "-" refl, usd-ne n)

  format_date-ne : (o : Option String) → format_date usd day o ≢ ""
  unfolding format_date
  format_date-ne none = literal "-" refl
  format_date-ne (some s) = ground (arith, literal "-" refl, day-ne s)

  -- While the asset has a tag and a name, an assigned user has an email address, and the formats of
  -- amounts and dates give texts that are not empty, no cell of the tab "Details" is empty.
  pub details-ShowText :
      (a : Asset)
      → a.asset_tag ≢ ""
      → a.name ≢ ""
      → HasEmail a.assigned_user
      → All (λ e. e.1 ≢ "") (details usd day a)
  unfolding details
  details-ShowText a tag name email = (
    tag,
    (
      name,
      (
        or_text-ne a.description "-" (literal "-" refl),
        (
          status_label-ne a.status,
          (
            condition_label-ne a.condition,
            (
              or_text-ne a.category_name "-" (literal "-" refl),
              (
                or_text-ne a.location "-" (literal "-" refl),
                (
                  or_text-ne a.manufacturer "-" (literal "-" refl),
                  (
                    or_text-ne a.model "-" (literal "-" refl),
                    (
                      or_text-ne a.serial_number "-" (literal "-" refl),
                      (
                        assigned_to-ne a.assigned_user email,
                        (
                          format_currency-ne a.purchase_price,
                          (
                            format_date-ne a.purchase_date,
                            (
                              format_date-ne a.warranty_expiry,
                              (
                                rate_text-ne a.depreciation_rate,
                                (format_date-ne a.created_at, (format_date-ne a.updated_at, tt)),
                              ),
                            ),
                          ),
                        ),
                      ),
                    ),
                  ),
                ),
              ),
            ),
          ),
        ),
      ),
    ),
  )
