-- ===== src/Assets/Import/Moves.antt =====
-- The steps of the import wizard as a relation, and how an import outlives the wizard that sent it.
use helpdesk_go.Base.{◌≡◌, true, List, [], ◌∷◌, arith}
use helpdesk_go.Http.{File}
use helpdesk_go.Assets.Import.{
  ValidationResult, ImportResult, Step, upload, review, complete, Event, acts, validated, imported,
  drops, proceeds, resets, step, start, run,
}

-- One step of the wizard. `overtaken`: an import is answered after the wizard was reset.
pub data Moves : Step → Event → Step → Type 0 where
  stays : (k : Step) (e : Event) → Moves k e k
  reviewed : (r : ValidationResult) → Moves upload (validated r) review
  completed : (r : ImportResult) → Moves review (imported r) complete
  overtaken : (r : ImportResult) → Moves upload (imported r) complete
  restarted : (k : Step) → Moves k (acts resets) upload

-- A walk through the wizard's steps, one for each event of a run.
pub data Walk : Step → List Event → Step → Type 0 where
  here : (k : Step) → Walk k [] k
  next :
      {k m n : Step} {e : Event} {es : List Event} → Moves k e m → Walk m es n → Walk k (e ∷ es) n

-- An import that is in flight when the user resets the wizard: its answer shows the completion, in
-- the wizard that has begun anew.
pub late_import_completes :
    (f : File) (r : ValidationResult) (i : ImportResult)
    → r.valid ≡ true
    → ((run start
          (acts (drops f) ∷ validated r ∷ acts proceeds ∷ acts resets ∷ [])).page.current_step
        ≡ upload)
      × ((run start (
            acts (drops f)
            ∷ validated r
            ∷ acts proceeds
            ∷ acts resets
            ∷ imported i
            ∷ [])).page.current_step
          ≡ complete)
unfolding step start
late_import_completes f r i h = ground arith
