-- ===== src/Queue/Paging.antt =====
-- Loading page after page shows the pages in their order.
use mathlib.Core.List.{append-nil, append_assoc}
use helpdesk_go.Base.{
  ◌≡◌, refl, sym, subst, ◌∙◌, ap, true, false, String, Option, none, some, List, [], ◌∷◌, ◌++◌,
  arith, truthy, ◌⊎◌,
}
use helpdesk_go.Queue.{
  Ticket, Page, QueueList, TicketList, data_changed, load_more, event_received, filters_changed,
  load_start, load_done,
}

abbrev pub all_items : List Page → List Ticket
all_items [] = []
all_items (p ∷ ps) = p.items ++ all_items ps

-- Every page but the last names a next one, and every next cursor is not empty.
abbrev pub IsLinked : Option String → List Page → Type 0
IsLinked next [] = Unit
IsLinked next (p ∷ ps) = (truthy next ≡ true) × IsLinked p.next_cursor ps

-- "Load More", and the data of the page that it asks for.
abbrev pub load_pages : List Page → QueueList → QueueList
load_pages [] q = q
load_pages (p ∷ ps) q = load_pages ps (data_changed (some p) (load_more q))

load_page-items :
    (p : Page) (q : QueueList)
    → truthy q.next_cursor ≡ true
    → (data_changed (some p) (load_more q)).items ≡ q.items ++ p.items
unfolding data_changed load_more
load_page-items p q h = ground arith

load_page-next_cursor :
    (p : Page) (q : QueueList) → (data_changed (some p) (load_more q)).next_cursor ≡ p.next_cursor
unfolding data_changed load_more
load_page-next_cursor p q = ground arith

load_pages-items :
    (ps : List Page) (q : QueueList)
    → IsLinked q.next_cursor ps
    → (load_pages ps q).items ≡ q.items ++ all_items ps
load_pages-items [] q h = sym (append-nil q.items)
load_pages-items (p ∷ ps) q h =
    load_pages-items ps (data_changed (some p) (load_more q))
      (subst (λ c. IsLinked c ps) (sym (load_page-next_cursor p q)) h.1)
    ∙ (ap (λ l. l ++ all_items ps) (load_page-items p q h.0)
        ∙ append_assoc q.items p.items (all_items ps))

-- However the list stood, after an event of the server or a change of the filters it shows exactly
-- the pages that are then loaded, in order, where every page names the next by a cursor and each is
-- answered once.
pub reload_pages-items :
    (q r : QueueList) (filters : List (String × String)) (p : Page) (ps : List Page)
    → (r ≡ event_received q) ⊎ (r ≡ filters_changed filters q)
    → IsLinked p.next_cursor ps
    → (load_pages ps (data_changed (some p) r)).items ≡ all_items (p ∷ ps)
unfolding data_changed event_received filters_changed
reload_pages-items q r filters p ps e h =
    load_pages-items ps (data_changed (some p) r) h ∙ ap (λ l. l ++ all_items ps) (ground arith)

-- While a later page is shown, a new answer for that page, as the poll of a disconnected list brings
-- it, is appended and does not replace the first: the list then has the page's items twice.
pub polled_page_repeats :
    (q : QueueList) (p polled : Page)
    → truthy q.cursor ≡ true
    → (data_changed (some polled) (data_changed (some p) q)).items
      ≡ q.items ++ (p.items ++ polled.items)
unfolding data_changed
polled_page_repeats q p polled h = rw h (append_assoc q.items p.items polled.items)

abbrev pub load_all : List Page → TicketList → TicketList
load_all [] l = l
load_all (p ∷ ps) l = load_all ps (load_done false (some p) (load_start l))

load_all-items : (ps : List Page) (l : TicketList) → (load_all ps l).items ≡ l.items ++ all_items ps
unfolding load_done load_start
load_all-items [] l = sym (append-nil l.items)
load_all-items (p ∷ ps) l =
    load_all-items ps (load_done false (some p) (load_start l))
    ∙ append_assoc l.items p.items (all_items ps)

-- The requester's list shows the first page and the pages loaded after it, in order, whatever it
-- showed before the first; a load that fails leaves the items and the cursor as they were.
pub ticket_list_pages :
    (l : TicketList) (p : Page) (ps : List Page)
    → ((load_all ps (load_done true (some p) (load_start l))).items ≡ all_items (p ∷ ps))
      × (load_done false none (load_start l) ≡ record l { loading = false })
unfolding load_done load_start
ticket_list_pages l p ps = (load_all-items ps (load_done true (some p) (load_start l)), refl)
