-- ===== src/Assets/Import/Laws.antt =====
-- The import wizard keeps to its steps, and imports only what the server has found valid.
use helpdesk_go.Base.{
  runs-keep, oldest, ◌≡◌, ◌≢◌, refl, ◌⊎◌, inl, inr, Bool, true, false, Option, none, some, List, [],
  ◌∷◌, arith, Option-cases, Bool-cases,
}
use helpdesk_go.Http.{File}
use helpdesk_go.Assets.Import.{
  Wizard, ValidationResult, ImportResult, Job, validate, import_file, Step, upload, review,
  complete, System, Event, acts, validated, imported, fails, Action, drops, proceeds, resets, step,
  start, run, view, nothing, can_do, act, answer, handle_import, handle_file_upload, start_import,
}

-- The server has answered for this file with this result.
abbrev pub Answered : File → ValidationResult → List (File × ValidationResult) → Type 0
Answered f r [] = ⊥
Answered f r ((g, q) ∷ rest) = ((g ≡ f) × (q ≡ r)) ⊎ Answered f r rest

-- What fits together in the first step: `uploading` says whether a request is in flight, and a file
-- in validation is the one that is shown.
abbrev UploadFits : Option File → Bool → List Job → Type 0
UploadFits file uploading [] = uploading ≡ false
UploadFits file uploading (validate f ∷ []) = (uploading ≡ true) × (file ≡ some f)
UploadFits file uploading (import_file f ∷ []) = uploading ≡ true
UploadFits file uploading (_ ∷ _) = ⊥

abbrev BusyFits : Bool → List Job → Type 0
BusyFits uploading [] = uploading ≡ false
BusyFits uploading (import_file f ∷ []) = uploading ≡ true
BusyFits uploading (_ ∷ _) = ⊥

-- In the second step the result shown is the server's answer for the file shown.
abbrev ReviewFits : Option File → Option ValidationResult → List (File × ValidationResult) → Type 0
ReviewFits (some f) (some r) answered = Answered f r answered
ReviewFits _ _ answered = ⊥

abbrev CompleteFits : Option ImportResult → Bool → List Job → Type 0
CompleteFits (some r) uploading [] = uploading ≡ false
CompleteFits (some r) uploading (_ ∷ _) = ⊥
CompleteFits none uploading _ = ⊥

abbrev Fits : Step → Wizard → List Job → List (File × ValidationResult) → Type 0
Fits upload w pending answered = UploadFits w.uploaded_file w.uploading pending
Fits review w pending answered =
    BusyFits w.uploading pending × ReviewFits w.uploaded_file w.validation_result answered
Fits complete w pending answered = CompleteFits w.import_result w.uploading pending

-- Every import that has been sent is of a file that the server has found valid.
abbrev JobOk : Job → List (File × ValidationResult) → Type 0
JobOk (validate f) answered = Unit
JobOk (import_file f) answered = (r : ValidationResult) × (r.valid ≡ true) × Answered f r answered

abbrev pub ImportsOk : List Job → List (File × ValidationResult) → Type 0
ImportsOk [] answered = Unit
ImportsOk (j ∷ js) answered = JobOk j answered × ImportsOk js answered

pub record Inv (s : System) : Type 0 where
  pub fits : Fits s.page.current_step s.page s.pending s.answered
  pub imports : ImportsOk s.sent s.answered

fits-step :
    (s : System) (e : Event)
    → Inv s
    → Fits (step s e).page.current_step (step s e).page (step s e).pending (step s e).answered
unfolding step
fits-step s (acts (drops f)) v = ground arith
fits-step s (acts proceeds) v = ground arith
fits-step s (acts resets) v = ground arith
fits-step s (validated r) v = ground arith
fits-step s (imported r) v = ground arith
fits-step s fails v = ground arith

JobOk-more :
    (j : Job) (a : File × ValidationResult) (answered : List (File × ValidationResult))
    → JobOk j answered
    → JobOk j (a ∷ answered)
JobOk-more (validate f) a answered ok = tt
JobOk-more (import_file f) a answered (r, good, known) = (r, good, inr known)

ImportsOk-more :
    (js : List Job) (a : File × ValidationResult) (answered : List (File × ValidationResult))
    → ImportsOk js answered
    → ImportsOk js (a ∷ answered)
ImportsOk-more [] a answered ok = tt
ImportsOk-more (j ∷ js) a answered ok =
    (JobOk-more j a answered ok.0, ImportsOk-more js a answered ok.1)

-- What the "Proceed" button asks for before it is enabled.
proceeds_ready :
    (s : System)
    → Inv s
    → can_do (view s.page) proceeds ≡ true
    → (f : File) × (s.page.uploaded_file ≡ some f) × JobOk (import_file f) s.answered
unfolding view
proceeds_ready s v h = elim (Option-cases s.page.uploaded_file) [
  | inl e ↦ absurd (ground arith)
  | inr (f, e) ↦ elim (Option-cases s.page.validation_result) [
    | inl d ↦ absurd (ground arith)
    | inr (r, d) ↦ (f, e, (r, ground arith, ground arith))
  ]
]

imports-proceeds :
    (s : System)
    → Inv s
    → can_do (view s.page) proceeds ≡ true
    → ImportsOk (act proceeds s).sent (act proceeds s).answered
unfolding handle_import
imports-proceeds s v h =
    let (f, e, good) = proceeds_ready s v h in rw (e, start_import) (good, v.imports)

imports-act :
    (s : System) (a : Action)
    → Inv s
    → can_do (view s.page) a ≡ true
    → ImportsOk (act a s).sent (act a s).answered
unfolding handle_file_upload
imports-act s (drops f) v h = (tt, v.imports)
imports-act s proceeds v h = imports-proceeds s v h
imports-act s resets v h = v.imports

imports-answer :
    (s : System) (e : Event) (j : Option Job)
    → Inv s
    → ImportsOk (answer j e s).sent (answer j e s).answered
imports-answer s (validated r) (some (validate f)) v =
    ImportsOk-more s.sent (f, r) s.answered v.imports
imports-answer s fails (some (validate f)) v = v.imports
imports-answer s (imported r) (some (import_file f)) v = v.imports
imports-answer s fails (some (import_file f)) v = v.imports
imports-answer s (acts a) (some (validate f)) v = v.imports
imports-answer s (acts a) (some (import_file f)) v = v.imports
imports-answer s _ _ v = v.imports

imports-step : (s : System) (e : Event) → Inv s → ImportsOk (step s e).sent (step s e).answered
unfolding step
imports-step s (acts a) v = elim (Bool-cases (can_do (view s.page) a)) [
  | inl h ↦ rw h (imports-act s a v h)
  | inr h ↦ rw h v.imports
]
imports-step s (validated r) v = imports-answer s (validated r) (oldest s.pending) v
imports-step s (imported r) v = imports-answer s (imported r) (oldest s.pending) v
imports-step s fails v = imports-answer s fails (oldest s.pending) v

pub step-Inv : (s : System) (e : Event) → Inv s → Inv (step s e)
step-Inv s e v = record { fits = fits-step s e v; imports = imports-step s e v }

pub start-Inv : Inv start
unfolding start
start-Inv = record { fits = refl; imports = tt }

-- Whatever the user does and however the server answers, the wizard's step, file, results and
-- `uploading` flag fit together, with at most one request in flight, and an import is sent only for
-- a file that the server has answered for with a result that is valid.
pub import_wizard-Inv : (es : List Event) → Inv (run start es)
import_wizard-Inv es = runs-keep step Inv step-Inv start es start-Inv

-- The wizard never shows an empty page.
view-ne-nothing : (es : List Event) → view (run start es).page ≢ nothing
unfolding view
view-ne-nothing es = ne (run start es) (import_wizard-Inv es)
  where
    ne : (s : System) → Inv s → view s.page ≢ nothing
    ne s v = ground arith
