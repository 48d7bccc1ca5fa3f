-- ===== src/Tests/Pages.antt =====
-- The pages of bulk operations, categories, checkouts and lists at work.
use helpdesk_go.Base.{◌≡◌, refl, true, List, [], ◌∷◌, ◌++◌, none, some, All, length, oldest}
use helpdesk_go.Http.{World, replied, arr, nil}
use helpdesk_go.Assets.Bulk
use helpdesk_go.Assets.Catalog
use helpdesk_go.Assets.Checkout
use helpdesk_go.Assets.Bulk.Laws.{SaysSomething, bulk_updates-SaysSomething}
use helpdesk_go.Assets.Catalog.Laws.{Inv as CatalogInv, IsClosed, catalog-Inv, late_answer_closes}
use helpdesk_go.Assets.Checkout.Laws.{Inv as CheckoutInv}
use helpdesk_go.Assets.Listing.{Listing, Filters}

abbrev retire : Bulk.Values
retire = record {
  status = some "retired";
  condition = none;
  location = some "";
  category_id = none;
  notes = none;
}

abbrev bulk_session : List Bulk.Event
bulk_session =
    Bulk.selects ("a1" ∷ "a2" ∷ []) ∷ Bulk.opens ∷ Bulk.submits retire ∷ Bulk.updated ∷ []

one_update : length (Bulk.run Bulk.start bulk_session).sent ≡ 1
unfolding Bulk.start Bulk.step
one_update = refl

bulk_updates-SaysSomething_example : All SaysSomething (Bulk.run Bulk.start bulk_session).sent
bulk_updates-SaysSomething_example = bulk_updates-SaysSomething bulk_session

abbrev laptops : Catalog.Category
laptops = record { id = "c1"; name = "Laptops"; description = none; asset_count = some 0 }

abbrev renamed : Catalog.FormData
renamed = record { name = "Notebooks"; description = none }

abbrev catalog_session : List Catalog.Event
catalog_session =
    Catalog.opens (some laptops)
    ∷ Catalog.submits renamed
    ∷ Catalog.answered true
    ∷ Catalog.deletes laptops
    ∷ []

two_jobs :
    (Catalog.run Catalog.start catalog_session).sent
    ≡ Catalog.remove laptops ∷ Catalog.update laptops renamed ∷ []
unfolding Catalog.start Catalog.step
two_jobs = refl

catalog-Inv_example :
    CatalogInv (λ c. c.id ≡ "c1") (λ c. c.id ≡ "c1") (Catalog.run Catalog.start catalog_session)
catalog-Inv_example =
    catalog-Inv (λ c. c.id ≡ "c1") (λ c. c.id ≡ "c1") catalog_session (refl, (tt, (tt, (refl, tt))))

abbrev saving : Catalog.System
saving = Catalog.run Catalog.start (Catalog.opens none ∷ Catalog.submits renamed ∷ [])

late_answer_closes_example :
    IsClosed (Catalog.step saving (Catalog.answered true)).page
    × ((Catalog.step saving (Catalog.answered true)).sent ≡ saving.sent)
    × IsClosed
        (Catalog.run saving
          (Catalog.closes ∷ Catalog.opens (some laptops) ∷ Catalog.answered true ∷ [])).page
    × ((Catalog.run saving
          (Catalog.closes ∷ Catalog.opens (some laptops) ∷ Catalog.answered true ∷ [])).sent
        ≡ saving.sent)
unfolding Catalog.step Catalog.start Catalog.handle_open_modal oldest
late_answer_closes_example = late_answer_closes saving (some laptops) tt

abbrev world : World
world = record {
  server = λ sent q. replied (record { status = 200; text = some "[]"; parsed = some (arr nil) });
  sent = [];
  slept = 0;
}

abbrev camera : Checkout.Checkout
camera = record { id = "k1"; asset_name = "Camera"; status = Checkout.overdue }

abbrev checkout_session : List Checkout.Event
checkout_session =
    Checkout.opens_checkin camera
    ∷ Checkout.submits_checkin (record { condition_in = "good"; return_notes = none })
    ∷ Checkout.answered true
    ∷ []

-- The row keeps the status that it was read with, so its button checks the same checkout in again.
checked_in_twice :
    length (Checkout.run (λ d. d) Checkout.start (checkout_session ++ checkout_session)).sent ≡ 2
unfolding Checkout.step Checkout.start
checked_in_twice = refl

abbrev listing : Listing
listing = record {
  search = "cam";
  status_filter = "active" ∷ "retired" ∷ [];
  page = 2;
  page_size = 50;
}

abbrev filters : Filters
filters = record {
  asset_id = none;
  user_id = some "u1";
  action = some "";
  date_range = some ("2024-01-01", "2024-02-01");
  search = "";
}
