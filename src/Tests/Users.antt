-- ===== src/Tests/Users.antt =====
-- A role that is given to a user.
use helpdesk_go.Base.{nth, drop_nth}
use helpdesk_go.Http.{ok, undefined}
use helpdesk_go.Users.Flow
use helpdesk_go.Users.Flow.{start, run}
use helpdesk_go.Users.Flow.Settles.{answers, searches_settle}
use helpdesk_go.Users.Flow.Laws.{Fresh, panel-Fresh}
use helpdesk_go.Users.Flow.Order.{ShowsSearch, ready, overlapping, old_text_shown}
use helpdesk_go.Base.{◌≡◌, refl, some, none, false, List, [], ◌∷◌}
use helpdesk_go.Http.{World, replied, Value, obj, done}
use helpdesk_go.Users.{User, Page, add_role, sync_selected}

abbrev ada : User
ada = record {
  id = "u1";
  external_id = none;
  username = some "ada";
  email = none;
  display_name = some "Ada";
  roles = "agent" ∷ [];
}

abbrev page : Page
page = record {
  q = "";
  loading = false;
  users = ada ∷ [];
  selected = some ada;
  roles = "agent" ∷ "manager" ∷ [];
  new_role = "manager";
  notices = [];
}

abbrev world : World
world = record {
  server = λ sent q. replied (record { status = 200; text = some "{}"; parsed = some (obj done) });
  sent = [];
  slept = 0;
}

abbrev read : Value → List User
read v = record ada { roles = "agent" ∷ "manager" ∷ [] } ∷ []

selected_anew :
    (add_role read page world).0.selected ≡ some (record ada { roles = "agent" ∷ "manager" ∷ [] })
unfolding add_role
selected_anew = refl

-- The first load lists Ada, who is selected; then two texts are typed.
abbrev searching : List Flow.Event
searching = Flow.answered 0 (ok undefined) ∷ Flow.selects 0 ∷ Flow.types "a" ∷ Flow.types "ad" ∷ []

panel-Fresh_example : Fresh (run read start searching).page
panel-Fresh_example = panel-Fresh read searching

searches_settle_example :
    ((run read (run read start searching) (answers (undefined ∷ undefined ∷ []))).in_flight ≡ [])
    × ShowsSearch read (run read (run read start searching) (answers (undefined ∷ undefined ∷ [])))
unfolding start Flow.step nth drop_nth sync_selected
searches_settle_example =
    searches_settle read searching (undefined ∷ undefined ∷ []) (tt, (tt, (tt, (tt, tt)))) refl

old_text_shown_example :
    ((run read
        (ready ada "manager" "a" page [] none)
        (overlapping "b" undefined undefined undefined)).page.q
      ≡ "b")
    × ((run read
          (ready ada "manager" "a" page [] none)
          (overlapping "b" undefined undefined undefined)).in_flight
        ≡ [])
    × ((run read
          (ready ada "manager" "a" page [] none)
          (overlapping "b" undefined undefined undefined)).table_of
        ≡ some ("a", undefined))
    × ((run read
          (ready ada "manager" "a" page [] none)
          (overlapping "b" undefined undefined undefined)).page.users
        ≡ read undefined)
old_text_shown_example =
    old_text_shown read ada "manager" "a" "b" page [] none undefined undefined undefined refl refl
