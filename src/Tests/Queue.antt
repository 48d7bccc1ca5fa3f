-- ===== src/Tests/Queue.antt =====
-- The lists of tickets at work.
use helpdesk_go.Base.{◌≡◌, refl, inl, none, some, [], ◌∷◌, false}
use helpdesk_go.Queue.{
  Ticket, Page, QueueList, TicketList, mount, data_changed, event_received, load_more,
}
use helpdesk_go.Queue.Paging.{all_items, load_pages, reload_pages-items}

abbrev ticket_one : Ticket
ticket_one = record {
  id = "1";
  number = "T-1";
  title = "Printer";
  requester = none;
  category = none;
  status = some "open";
  priority = some 2;
}

abbrev page_one : Page
page_one = record { items = ticket_one ∷ []; next_cursor = some "c2" }

abbrev page_two : Page
page_two = record { items = record ticket_one { id = "2" } ∷ []; next_cursor = none }

abbrev shown : QueueList
shown = load_more (data_changed (some page_one) (mount []))

reload_pages-items_example :
    (load_pages (page_two ∷ []) (data_changed (some page_one) (event_received shown))).items
    ≡ all_items (page_one ∷ page_two ∷ [])
reload_pages-items_example =
    reload_pages-items shown (event_received shown) [] page_one (page_two ∷ []) (inl refl)
      (refl, tt)

abbrev fresh : TicketList
fresh = record { items = []; next_cursor = none; loading = false }
