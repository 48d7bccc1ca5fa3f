-- ===== src/Assets/Analytics/View.antt =====
-- What the analytics page of the assets shows of the server's figures,
-- web/internal/src/components/assets/AssetAnalytics.tsx, and the tables of AssetDashboard.tsx.
use helpdesk_go.Base.{
  ℕ, ◌%◌, ◌≡◌, refl, String, ◌==◌, ◌<>◌, Option, List, [], ◌∷◌, map, if◌then◌else◌, nth,
}
use helpdesk_go.Http.Convert.{decimal}

-- `Num`: the numbers of the language, which need not be whole.
module _ (Num : Type 0) where
  pub record Totals : Type 0 where
    pub total_assets : ℕ
    pub active_assets : ℕ
    pub total_value : Num
    pub depreciated_value : Num

  -- A part of the assets: the assets of one status, manufacturer or location.
  pub record Part : Type 0 where
    pub key : String
    pub count : ℕ
    pub percentage : Num

  pub record CategoryPart : Type 0 where
    pub category : String
    pub count : ℕ
    pub total_value : Num
    pub avg_age_months : Num

  -- `usd` is the browser's format of amounts, `fixed n` and `round` are the language's `toFixed(n)` and
  -- `Math.round`, each with the text that is shown of it, and `plain` shows a number as it is.
  module _ (usd : Num → String) (fixed : ℕ → Num → String) (round plain : Num → String) where
    abbrev pub format_percentage : Num → String
    format_percentage n = fixed 1 n <> "%"

    -- The four figures at the top: title, value, and what follows it.
    unfoldable pub summary_figures : Totals → List (String × (String × String))
    summary_figures s =
        ("Total Assets", (decimal s.total_assets, ""))
        ∷ ("Active Assets", (decimal s.active_assets, "/ " <> decimal s.total_assets))
        ∷ ("Total Value", (usd s.total_value, ""))
        ∷ ("Depreciated Value", (usd s.depreciated_value, ""))
        ∷ []

    -- A slice of the chart of statuses: its label. The colours are given by position.
    abbrev pub slice_label : Part → String
    slice_label p = p.key <> (": " <> format_percentage p.percentage)

    unfoldable pub category_row : CategoryPart → List String
    category_row c = c.category ∷ decimal c.count ∷ usd c.total_value ∷ round c.avg_age_months ∷ []

    -- A row of the tables of manufacturers and of locations: the bar is drawn to the percentage.
    unfoldable pub part_row : Part → (String × String) × (Num × String)
    part_row p = ((p.key, decimal p.count), (p.percentage, format_percentage p.percentage))

    -- The tooltip of the acquisitions, by the value and the name of a series: the text and its label.
    unfoldable pub acquisition_tooltip : Num → String → String × String
    acquisition_tooltip v name =
        if name == "value" then (usd v, "Total Value") else (plain v, "Count")

    -- The two tables of the dashboard.
    unfoldable pub dashboard_status_row : Part → List String
    dashboard_status_row p = p.key ∷ decimal p.count ∷ format_percentage p.percentage ∷ []

    unfoldable pub dashboard_category_row : CategoryPart → List String
    dashboard_category_row c =
        c.category ∷ decimal c.count ∷ ("$" <> fixed 2 c.total_value) ∷ plain c.avg_age_months ∷ []

    -- The names of the two series that the tooltip is for.
    abbrev pub acquisition_series : List String
    acquisition_series = "Count" ∷ "Value" ∷ []

    -- Neither series has the name that the tooltip asks for: it calls both "Count", and shows an
    -- amount as a bare number.
    both_called_count :
        (v : Num)
        → map (acquisition_tooltip v) acquisition_series
          ≡ (plain v, "Count") ∷ (plain v, "Count") ∷ []
    unfolding acquisition_tooltip
    both_called_count v = refl

abbrev pub colors : List String
colors = "#0088FE" ∷ "#00C49F" ∷ "#FFBB28" ∷ "#FF8042" ∷ "#8884D8" ∷ "#82CA9D" ∷ []

-- `COLORS[index % COLORS.length]`
unfoldable pub slice_color : ℕ → Option String
unfolding nth
slice_color index = nth (index % 6) colors
