-- ===== src/Assets/Detail/View.antt =====
-- What the page of an asset shows besides the tab "Details",
-- web/internal/src/components/assets/AssetDetail.tsx: its states, its tabs and their tables.
use helpdesk_go.Base.{ℕ, Bool, true, false, String, ◌<>◌, Option, none, some, List, [], ◌∷◌, length}
use helpdesk_go.Http.Convert.{decimal}
use helpdesk_go.Assets.Detail.{Asset, AuditEntry, Changes, changes_cell}

pub data Direction : Type 0 where
  parent child : Direction

pub record Relationship : Type 0 where
  pub related_id : String
  pub related_name : String
  pub related_tag : String
  pub relationship_type : String
  pub direction : Direction

-- A tag: its colour and its text.
abbrev pub Tag : Type 0
Tag = String × String

-- A row of the relationships: the link with its two lines, and the two tags.
pub record RelationshipRow : Type 0 where
  pub target : String
  pub lines : String × String
  pub relationship : Tag
  pub direction_tag : Tag

abbrev pub direction_label : Direction → String
direction_label parent = "PARENT"
direction_label child = "CHILD"

abbrev pub type_color : Direction → String
type_color parent = "blue"
type_color child = "green"

abbrev pub direction_color : Direction → String
direction_color parent = "orange"
direction_color child = "purple"

-- `replace` and `upper` are the language's `replace`, of the first place only, and `toUpperCase`.
unfoldable pub relationship_row :
    (replace : String → String → String → String) (upper : String → String)
    → Relationship
    → RelationshipRow
relationship_row replace upper r = record {
  target = "/assets/" <> r.related_id;
  lines = (r.related_name, r.related_tag);
  relationship = (type_color r.direction, upper (replace r.relationship_type "_" " "));
  direction_tag = (direction_color r.direction, direction_label r.direction);
}

-- An entry of the history with the fields of all its columns.
pub record Entry : Type 0 where
  pub timestamp : String
  pub user_name : String
  pub action : String
  pub entry : AuditEntry

-- A row of the history: date, user, tag of the action, changes.
unfoldable pub audit_row :
    (format : String → String → String) (upper : String → String)
    → Entry
    → String × (String × (Tag × Changes))
unfolding changes_cell
audit_row format upper e = (
  format "MMM D, YYYY h:mm A" e.timestamp,
  (e.user_name, (("blue", upper e.action), changes_cell e.entry)),
)

-- `xs?.length || 0`
abbrev pub count_of : {A : Type 0} → Option (List A) → ℕ
count_of none = 0
count_of (some xs) = length xs

-- The labels of the tabs.
unfoldable pub tab_labels : Option (List Relationship) → Option (List Entry) → List String
unfolding decimal
tab_labels relationships audit_history =
    "Details"
    ∷ ("Relationships (" <> (decimal (count_of relationships) <> ")"))
    ∷ ("Audit History (" <> (decimal (count_of audit_history) <> ")"))
    ∷ []

-- The page: its heading is the asset's name and tag, and it links to the list and to the form.
pub data Shown : Type 0 where
  loading_text not_found_text : Shown
  asset_page : (name asset_tag edit_path : String) → Shown

unfoldable pub shown : Bool → Option (String × Asset) → Shown
shown true asset = loading_text
shown false none = not_found_text
shown false (some (id, a)) = asset_page a.name a.asset_tag ("/assets/" <> (id <> "/edit"))
