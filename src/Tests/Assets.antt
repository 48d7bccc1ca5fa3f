-- ===== src/Tests/Assets.antt =====
-- The asset pages at work.
use helpdesk_go.Assets.Import.{ImportResult}
use helpdesk_go.Base.{◌≡◌, refl, true, List, [], ◌∷◌}
use helpdesk_go.Http.{File}
use helpdesk_go.Assets.Import.{
  ValidationResult, Event, acts, validated, fails, drops, proceeds, resets, run, start, step,
  import_file, validate,
}
use helpdesk_go.Assets.Import.Laws.{Inv, import_wizard-Inv}

abbrev sheet : File
sheet = record { name = "assets.csv"; size = 120; mime = "text/csv" }

abbrev good : ValidationResult
good = record { valid = true; errors = []; warnings = []; preview = [] }

abbrev session : List Event
session = acts (drops sheet) ∷ validated good ∷ acts proceeds ∷ acts resets ∷ fails ∷ []

session_sends : (run start session).sent ≡ import_file sheet ∷ validate sheet ∷ []
unfolding start step
session_sends = refl

import_wizard-Inv_example : Inv (run start session)
import_wizard-Inv_example = import_wizard-Inv session

-- Nothing is imported from an empty sheet.
abbrev none_imported : ImportResult
none_imported = record {
  total_rows = 0;
  successful_imports = 0;
  failed_imports = 0;
  warnings = [];
  errors = [];
  imported_assets = [];
}
