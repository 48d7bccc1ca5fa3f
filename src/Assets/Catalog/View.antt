-- ===== src/Assets/Catalog/View.antt =====
-- What the page of the categories shows, web/internal/src/components/assets/AssetCategories.tsx: a row of
-- its table with its buttons, and the dialog.
use helpdesk_go.Base.{
  ℕ, ◌≡◌, refl, Bool, String, ◌<>◌, or_text, Option, none, some, [], ◌∷◌, if◌then◌else◌,
}
use helpdesk_go.Assets.Catalog.{Category, remove, Page, has_assets, handle_delete}

-- A row: the cells in the order of the columns, then the question of the button that deletes, and whether it
-- is disabled.
pub record Row : Type 0 where
  pub name : String
  pub description : String
  pub assets : ℕ
  pub created : String
  pub question : String
  pub delete_disabled : Bool

abbrev pub count_or_zero : Option ℕ → ℕ
count_or_zero none = 0
count_or_zero (some n) = n

-- `day` is the browser's format of a date; `created_at` is the category's.
unfoldable pub row : (day : String → String) (created_at : String) → Category → Row
row day created_at c = record {
  name = c.name;
  description = or_text c.description "-";
  assets = count_or_zero c.asset_count;
  created = day created_at;
  question = "Are you sure you want to delete \"" <> (c.name <> "\"?");
  delete_disabled = has_assets c.asset_count;
}

-- The title of the dialog, and the item of its form that is required, with its message.
unfoldable pub modal_title : Page → String
modal_title p = elim p.editing [ some c ↦ "Edit Category" | none ↦ "Create Category" ]

abbrev pub name_rule : String × String
name_rule = ("Category Name", "Category name is required")

-- A row's button is enabled exactly where its click would send the deletion.
row-handle_delete :
    (day : String → String) (created_at : String) (c : Category)
    → handle_delete c ≡ (if (row day created_at c).delete_disabled then [] else remove c ∷ [])
unfolding row handle_delete
row-handle_delete day created_at c = refl
