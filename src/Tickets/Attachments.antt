-- ===== src/Tickets/Attachments.antt =====
-- The attachments that a ticket page shows as being uploaded: `pendingAtts` of
-- web/internal/src/components/agent/TicketDetail.tsx and of
-- web/requester/src/components/TicketDetail.tsx. Several uploads may run at once.
use helpdesk_go.Base.{
  ℕ, ◌≡◌, refl, ap, ◌∙◌, ◌≢◌, ◌⊎◌, inl, inr, arith, Bool, true, false, not, String, ◌==◌, eq_iff,
  eqb, List, [], ◌∷◌, ◌++◌, map, keep, if◌then◌else◌,
}

pub record Pending : Type 0 where
  pub filename : String
  pub bytes : ℕ

-- `setPendingAtts((p) => [...p, { filename, bytes }])`
unfoldable pub upload_starts : Pending → List Pending → List Pending
upload_starts a ps = ps ++ a ∷ []

-- `setPendingAtts((p) => p.filter((a) => a.filename !== name))`, whatever became of the upload.
unfoldable pub upload_ends : String → List Pending → List Pending
upload_ends name ps = keep (λ a. not (a.filename == name)) ps

-- The agent page refuses an upload before it starts where the server has no storage; the entry of
-- that name is taken out all the same. The Boolean is `features.data?.attachments`.
unfoldable pub custom_request : Bool → Pending → List Pending → List Pending
unfolding upload_starts upload_ends
custom_request true a ps = upload_starts a ps
custom_request false a ps = upload_ends a.filename ps

-- What is really running: uploads with a number each.
abbrev pub Running : Type 0
Running = List (ℕ × Pending)

abbrev pub files : Running → List Pending
files = map (λ r. r.1)

abbrev pub stop : ℕ → Running → Running
stop id [] = []
stop id ((i, a) ∷ rs) = if eqb i id then rs else (i, a) ∷ stop id rs

abbrev pub Absent : String → Running → Type 0
Absent name [] = Unit
Absent name ((i, a) ∷ rs) = (a.filename ≢ name) × Absent name rs

abbrev pub HasDistinctNames : Running → Type 0
HasDistinctNames [] = Unit
HasDistinctNames ((i, a) ∷ rs) = Absent a.filename rs × HasDistinctNames rs

-- An upload that is running under this number.
abbrev pub Runs : ℕ → Pending → Running → Type 0
Runs id a [] = ⊥
Runs id a ((i, b) ∷ rs) = ((i ≡ id) × (b ≡ a)) ⊎ ((i ≢ id) × Runs id a rs)

upload_ends-Absent :
    (name : String) (rs : Running) → Absent name rs → upload_ends name (files rs) ≡ files rs
unfolding upload_ends
upload_ends-Absent name [] h = refl
upload_ends-Absent name ((i, a) ∷ rs) h =
    ground (arith, eq_iff a.filename name, upload_ends-Absent name rs h.1)

Runs-ne :
    (id : ℕ) (a : Pending) (name : String) (rs : Running)
    → Absent name rs
    → Runs id a rs
    → a.filename ≢ name
Runs-ne id a name [] n r = absurd r
Runs-ne id a name ((i, b) ∷ rs) n (inl h) = λ e. n.0 (ap (λ p. p.filename) h.1 ∙ e)
Runs-ne id a name ((i, b) ∷ rs) n (inr h) = Runs-ne id a name rs n.1 h.1

-- While no two running uploads share a name, the page that shows the running uploads goes on
-- showing exactly those, in their order, when one of them ends.
pub upload_ends-stop :
    (id : ℕ) (a : Pending) (rs : Running)
    → HasDistinctNames rs
    → Runs id a rs
    → upload_ends a.filename (files rs) ≡ files (stop id rs)
unfolding upload_ends
upload_ends-stop id a [] d r = absurd r
upload_ends-stop id a ((i, b) ∷ rs) d (inl h) =
    ground (arith, eq_iff b.filename a.filename, upload_ends-Absent a.filename rs)
upload_ends-stop id a ((i, b) ∷ rs) d (inr h) = ground (
  arith,
  eq_iff b.filename a.filename,
  Runs-ne id a b.filename rs d.0 h.1,
  upload_ends-stop id a rs d.1 h.1,
)

-- Two uploads of files with one name: when the first ends, the page shows neither, though the second
-- still runs.
pub same_name_hides :
    (a b : Pending)
    → a.filename ≡ b.filename
    → upload_ends a.filename (upload_starts b (upload_starts a [])) ≡ []
unfolding upload_ends upload_starts
same_name_hides a b h = ground (arith, eq_iff a.filename a.filename, eq_iff b.filename a.filename)
